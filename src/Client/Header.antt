-- ===== src/Client/Header.antt =====
-- readHeaderFunc of audioclient/ClientManage.cpp: a header of twelve bytes, read in pieces.
use epoll_based_fault_diagno.Base.{
  ℕ, zero, suc, ◌+◌, ◌-◌, ◌≤◌, ◌<◌, ◌≡◌, refl, sym, ap, ◌∙◌, ◌⊎◌, Bool, true, false, List, [], ◌∷◌,
  ◌++◌, append_assoc, Bytes, Option, none, some, ℤ, pos, negsuc, add64, u32_at, length,
  length-append, length-take, length-drop, take, drop, take-all, take-append, take-append-take,
  drop-append, drop-drop, splice, length-splice, ◌==◌, if◌then◌else◌, eq→==, ==→eq, ==→ne,
  Bool-cases, inl, inr, arith,
}
use epoll_based_fault_diagno.Socket.{Errno, would_block}
use epoll_based_fault_diagno.Wire.{confirm_num, read_header}

-- What receiveData answers: bytes, 0 for a closed connection, or -1.
pub data RecvAnswer : Type 0 where
  got : Bytes → RecvAnswer
  closed : RecvAnswer
  failed : Errno → RecvAnswer

pub record HeaderReader : Type 0 where
  pub unit_header : Bytes
  pub h_read_len : ℕ
  pub network_error : Bool
  pub header_err_cnt : ℕ

-- `for (i = 1; i < sizeof(NetMsgHeader) - 3; ++i)`, with the rounds left.
unfoldable pub find_start : ℕ → ℕ → Bytes → ℕ
find_start zero i header = i
find_start (suc rounds) i header =
    let rest = find_start rounds (suc i) header in
    if u32_at (drop i header) 0 == confirm_num then i else rest

-- "wrong unit header": what follows a possible start moves to the front.
unfoldable pub shift_header : HeaderReader → HeaderReader
unfolding find_start
shift_header r =
    let i = find_start 8 1 r.unit_header in
    record r {
      header_err_cnt = add64 r.header_err_cnt 1;
      h_read_len = 12 - i;
      unit_header = drop i r.unit_header ++ drop (12 - i) r.unit_header;
    }

-- "judge header" where the header is complete: the code, or the state to go on with.
unfoldable pub judge_unit : HeaderReader → ℤ × HeaderReader ⊎ HeaderReader
unfolding shift_header
judge_unit r =
    if r.h_read_len == 12
    then (if (read_header r.unit_header).confirm == confirm_num
        then inl (pos 0, record r { h_read_len = 0 })
        else inr (shift_header r))
    else inr r

-- The bytes that receiveData brings.
unfoldable pub take_bytes : Bytes → HeaderReader → HeaderReader
take_bytes bs r = record r {
  unit_header = splice r.h_read_len bs r.unit_header;
  h_read_len = r.h_read_len + length bs;
}

unfoldable pub lose_network : HeaderReader → HeaderReader
lose_network r = record r { network_error = true; h_read_len = 0 }

-- `none` is a call that still waits for an answer.
unfoldable pub read_header_func : List RecvAnswer → HeaderReader → Option (ℤ × HeaderReader)
unfolding judge_unit take_bytes lose_network
read_header_func [] r = none
read_header_func (got bs ∷ answers) r =
    elim (judge_unit (take_bytes bs r)) as (λ _. Option (ℤ × HeaderReader)) [
      | inl done ↦ some done
      | inr r' ↦ read_header_func answers r'
    ]
read_header_func (closed ∷ answers) r = some (negsuc 1, lose_network r)
read_header_func (failed errno ∷ answers) r =
    if would_block errno then some (negsuc 0, r) else some (negsuc 1, lose_network r)

-- Pieces of some bytes, none of them empty.
unfoldable pub Pieces : List Bytes → Bytes → Type 0
Pieces [] bytes = bytes ≡ []
Pieces (p ∷ ps) bytes = (rest : Bytes) × (0 < length p) × (bytes ≡ p ++ rest) × Pieces ps rest

unfoldable pub answers_of : List Bytes → List RecvAnswer
answers_of [] = []
answers_of (p ∷ ps) = got p ∷ answers_of ps

-- The first `h_read_len` bytes of `header` are there.
record Begun (header : Bytes) (r : HeaderReader) : Type 0 where
  pub sized : length r.unit_header ≡ 12
  pub there : take r.h_read_len r.unit_header ≡ take r.h_read_len header

taken-Begun :
    (header p rest : Bytes) (r : HeaderReader)
    → length header ≡ 12
    → drop r.h_read_len header ≡ p ++ rest
    → r.h_read_len < 12
    → Begun header r
    → Begun header (take_bytes p r)
unfolding take_bytes splice
taken-Begun header p rest r h e below b = record {
  sized = length-splice r.h_read_len p r.unit_header (omega (arith, b.sized, short)) ∙ b.sized;
  there =
      ap (take (r.h_read_len + length p)) (
        sym (
          append_assoc (take r.h_read_len r.unit_header) p
            (drop (r.h_read_len + length p) r.unit_header)))
      ∙ take-append (r.h_read_len + length p) (take r.h_read_len r.unit_header ++ p)
          (drop (r.h_read_len + length p) r.unit_header)
          (omega (
            arith,
            length-append (take r.h_read_len r.unit_header) p,
            length-take r.h_read_len r.unit_header,
            b.sized,
          ))
      ∙ ap (λ t. t ++ p) b.there
      ∙ ap (λ q. take r.h_read_len header ++ q)
          (sym (ap (take (length p)) e ∙ take-append (length p) p rest refl))
      ∙ take-append-take r.h_read_len (length p) (r.h_read_len + length p) header refl;
}
  where
    short : r.h_read_len + length p ≤ 12
    short = omega (arith, ap length e, length-append p rest, length-drop r.h_read_len header, h)

whole :
    (header : Bytes) (r : HeaderReader)
    → length header ≡ 12
    → r.h_read_len ≡ 12
    → Begun header r
    → r.unit_header ≡ header
whole header r h full b =
    sym (take-all r.h_read_len r.unit_header (omega (arith, b.sized, full)))
    ∙ b.there
    ∙ take-all r.h_read_len header (omega (arith, h, full))

judge_done :
    (header : Bytes) (r : HeaderReader)
    → r.h_read_len ≡ 12
    → r.unit_header ≡ header
    → (read_header header).confirm ≡ confirm_num
    → judge_unit r ≡ inl (pos 0, record r { h_read_len = 0 })
unfolding judge_unit
judge_done header r full same right =
    rw
      (
        judge_unit,
        eq→== r.h_read_len 12 full,
        eq→== (read_header r.unit_header).confirm confirm_num
            (ap (λ u. (read_header u).confirm) same ∙ right),
      )
      refl

judge_more : (r : HeaderReader) → (r.h_read_len == 12) ≡ false → judge_unit r ≡ inr r
unfolding judge_unit
judge_more r more = rw (judge_unit, more) refl

read_rest :
    (header : Bytes) (ps : List Bytes) (bytes : Bytes) (r : HeaderReader)
    → length header ≡ 12
    → (read_header header).confirm ≡ confirm_num
    → Begun header r
    → r.h_read_len < 12
    → drop r.h_read_len header ≡ bytes
    → Pieces ps bytes
    → (r' : HeaderReader) × (read_header_func (answers_of ps) r ≡ some (pos 0, r'))
      × (r'.unit_header ≡ header)
      × (r'.h_read_len ≡ 0)
unfolding read_header_func answers_of Pieces
read_rest header [] bytes r h right b below e none_left =
    ground (arith, ap length (e ∙ none_left), length-drop r.h_read_len header, h)
read_rest header (p ∷ ps) bytes r h right b below e (rest, some_bytes, split, more) =
    let b' = taken-Begun header p rest r h (e ∙ split) below b in
    let len : (take_bytes p r).h_read_len ≡ r.h_read_len + length p = unfold take_bytes in refl in
    let fits : r.h_read_len + length p ≤ 12 =
      omega
        (arith, ap length (e ∙ split), length-append p rest, length-drop r.h_read_len header, h) in
    elim (Bool-cases ((take_bytes p r).h_read_len == 12)) [
      | inl full ↦
          let same =
            whole header (take_bytes p r) h (==→eq (take_bytes p r).h_read_len 12 full) b' in
          (
            record (take_bytes p r) { h_read_len = 0 },
            rw
                (
                  read_header_func,
                  judge_done header (take_bytes p r) (==→eq (take_bytes p r).h_read_len 12 full)
                      same right,
                )
                refl,
            same,
            refl,
          )
      | inr part ↦
          let (r', done, same, ready) =
            read_rest header ps rest (take_bytes p r) h right b'
              (omega (arith, len, fits, ==→ne (take_bytes p r).h_read_len 12 part))
              (ap (λ n. drop n header) len
                ∙ sym (drop-drop r.h_read_len (length p) (r.h_read_len + length p) header refl)
                ∙ ap (drop (length p)) (e ∙ split)
                ∙ drop-append (length p) p rest refl)
              more in
          (r', rw (read_header_func, judge_more (take_bytes p r) part) done, same, ready)
    ]

-- A header of twelve bytes with the right number, in any pieces, none of them empty: readHeaderFunc
-- returns 0 once the last piece has come, the header is in its buffer, and it is ready for the next.
pub read_header_func-Pieces :
    (header : Bytes) (ps : List Bytes) (r : HeaderReader)
    → length header ≡ 12
    → (read_header header).confirm ≡ confirm_num
    → length r.unit_header ≡ 12
    → r.h_read_len ≡ 0
    → Pieces ps header
    → (r' : HeaderReader) × (read_header_func (answers_of ps) r ≡ some (pos 0, r'))
      × (r'.unit_header ≡ header)
      × (r'.h_read_len ≡ 0)
read_header_func-Pieces header ps r h right sized ready pieces =
    read_rest header ps header r h right
      (record {
        sized = sized;
        there = ap (λ n. take n r.unit_header) ready ∙ sym (ap (λ n. take n header) ready);
      })
      (omega (arith, ready)) (ap (λ n. drop n header) ready) pieces
