-- ===== src/Server/Worker.antt =====
-- AudioServer::workerFunc of audioserver/AudioServer.cpp, the threads that take the messages that
-- readFunc has put into their queues.
--
-- DeDataQueue of libmmdecoder.so is a parameter, `none` where it returns 0 or less. What is done with
-- a message is empty in the source; `taken` keeps the messages in the order in which they are taken.
pub mod Starved
use epoll_based_fault_diagno.Base.{
  ℕ, zero, suc, ◌+◌, Bool, ◌&&◌, ◌≡◌, List, [], ◌∷◌, ◌++◌, Option, none, some, is_pos, ◌==◌,
  if◌then◌else◌,
}
use epoll_based_fault_diagno.Wire.{read_header, dt_wav}
use epoll_based_fault_diagno.Server.Receive.{EnqueueCall, Env}

pub record Worker : Type 0 where
  pub queue : List EnqueueCall
  pub taken : List EnqueueCall
  -- The rounds with an audio message, with another message, and with none.
  pub wav_rounds : ℕ
  pub other_rounds : ℕ
  pub idle_rounds : ℕ

-- The branch on the type of the message.
unfoldable pub handle_block : EnqueueCall → Worker → Worker
handle_block c w =
    if dt_wav == (read_header c.block).msg_type
    then record w { taken = w.taken ++ (c ∷ []); wav_rounds = w.wav_rounds + 1 }
    else record w { taken = w.taken ++ (c ∷ []); other_rounds = w.other_rounds + 1 }

-- What the queue with index `idx` got from the calls of EnDataQueue, `before` being those before.
unfoldable pub accepted : Env → ℕ → List EnqueueCall → List EnqueueCall → List EnqueueCall
accepted e idx before [] = []
accepted e idx before (c ∷ cs) =
    let rest = accepted e idx (before ++ (c ∷ [])) cs in
    if c.queue_idx == idx && is_pos (e.enqueue before c) then c ∷ rest else rest

-- The worker thread with index `idx`, before it has taken anything.
abbrev pub worker_at : Env → ℕ → List EnqueueCall → Worker
worker_at e idx calls = record {
  queue = accepted e idx [] calls;
  taken = [];
  wav_rounds = 0;
  other_rounds = 0;
  idle_rounds = 0;
}

module _ (dequeue : List EnqueueCall → Option (EnqueueCall × List EnqueueCall)) where
  unfoldable pub worker_round : Worker → Worker
  unfolding handle_block
  worker_round w = elim (dequeue w.queue) as (λ _. Worker) [
    | none ↦ record w { idle_rounds = w.idle_rounds + 1 }
    | some (c, rest) ↦ handle_block c (record w { queue = rest })
  ]

  -- `while (!g_isExit)`, for the rounds until it is seen.
  unfoldable pub worker_func : ℕ → Worker → Worker
  unfolding worker_round
  worker_func zero w = w
  worker_func (suc rounds) w = worker_func rounds (worker_round w)
