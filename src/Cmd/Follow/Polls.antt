-- ===== src/Cmd/Follow/Polls.antt =====
-- What a follower of the log shows.
use localapp.Base.{
  ℕ, zero, suc, ◌+◌, ◌-◌, ◌≤◌, ◌<◌, ◌≡◌, refl, ap, sym, ◌∙◌, false, Bool-cases, inl, inr, Option,
  some, List, [], ◌∷◌, ◌++◌, length, take, drop, length-take, length-drop, take-append-drop,
  drop-add, drop-length-append, ltb, min, if◌then◌else◌, arith, length-append, append-nil,
  append_assoc,
}
use localapp.Text.{Str}
use localapp.Cmd.Tail.Lines.{IsTail, last_lines-IsTail}
use localapp.Cmd.Follow.{
  buffer_size, tail_read_chunk, read_from, write_tail, read_on, drain, follow_file,
}

take_all : (n : ℕ) (s : Str) → length s ≤ n → take n s ≡ s
take_all zero [] h = refl
take_all zero (c ∷ s) h = absurd (omega arith)
take_all (suc n) [] h = refl
take_all (suc n) (c ∷ s) h = ap (λ t. c ∷ t) (take_all n s (omega arith))

joined :
    (n offset : ℕ) (file : Str)
    → length (take n (drop offset file)) ≡ n
    → take n (drop offset file) ++ drop (offset + length (take n (drop offset file))) file
      ≡ drop offset file
joined n offset file e =
    ap (λ (k : ℕ). take n (drop offset file) ++ drop (offset + k) file) e
    ∙ ap (λ t. take n (drop offset file) ++ t) (drop-add offset n file)
    ∙ take-append-drop n (drop offset file)

-- The fuel is enough, and the loop reads to the end.
read_on-end :
    (fuel : ℕ) (file : Str) (offset : ℕ)
    → offset ≤ length file
    → length file - offset < fuel
    → read_on fuel file offset ≡ some (drop offset file, length file)
unfolding read_on
read_on-end zero file offset h k = absurd (omega arith)
read_on-end (suc fuel) file offset h k =
    let rest = drop offset file in
    let chunk = take buffer_size rest in
    let short : length rest ≡ length file - offset = length-drop offset file in
    let size : length chunk ≡ min buffer_size (length rest) = length-take buffer_size rest in
    elim (Bool-cases (ltb (length chunk) buffer_size)) [
      | inl e ↦
          let all : chunk ≡ rest = take_all buffer_size rest (ground arith) in
          let end : offset + length chunk ≡ length file = omega (arith, ap length all) in
          rw e (λ i. some (all i, end i))
      | inr e ↦
          rw (e, read_on-end fuel file (offset + length chunk) (ground arith) (ground arith))
            (ap (λ t. some (t, length file)) (joined buffer_size offset file (ground arith)))
    ]

-- A poll shows what lies behind the offset, or all of a file that has become shorter.
drain_lem :
    (file : Str) (offset : ℕ)
    → drain (some file) offset
      ≡ some (drop (if ltb (length file) offset then 0 else offset) file, length file)
unfolding drain
drain_lem file offset = elim (Bool-cases (ltb (length file) offset)) [
  | inl e ↦ rw e (read_on-end (suc (length file)) file 0 (omega arith) (omega arith))
  | inr e ↦ rw e (read_on-end (suc (length file)) file offset (ground arith) (omega arith))
]

-- A log that grows from poll to poll.
unfoldable pub Grows : Str → List (Option Str) → List Str → Type 0
Grows file [] [] = Unit
Grows file [] (p ∷ parts) = ⊥
Grows file (seen ∷ files) [] = ⊥
Grows file (seen ∷ files) (p ∷ parts) = (seen ≡ some (file ++ p)) × Grows (file ++ p) files parts

pub concat : List Str → Str
concat [] = []
concat (p ∷ parts) = p ++ concat parts

small : (size n : ℕ) → size ≤ tail_read_chunk → read_from size n ≡ 0
unfolding read_from
small size n h = ground arith

drain-grown : (file p : Str) → drain (some (file ++ p)) (length file) ≡ some (p, length (file ++ p))
drain-grown file p =
    let e : ltb (length (file ++ p)) (length file) ≡ false = ground (arith, length-append file p) in
    drain_lem (file ++ p) (length file)
    ∙ rw e (ap (λ t. some (t, length (file ++ p))) (drop-length-append file p))

follow_file-grown :
    (file : Str) (files : List (Option Str)) (parts : List Str)
    → Grows file files parts
    → follow_file files (length file) ≡ some (concat parts, length (file ++ concat parts))
unfolding follow_file Grows concat
follow_file-grown file [] [] g = ap (λ t. some ([], length t)) (sym (append-nil file))
follow_file-grown file [] (p ∷ parts) g = absurd g
follow_file-grown file (seen ∷ files) [] g = absurd g
follow_file-grown file (seen ∷ files) (p ∷ parts) (e, g) =
    rw (e, drain-grown file p, follow_file-grown (file ++ p) files parts g)
      (ap (λ t. some (p ++ concat parts, length t)) (append_assoc file p (concat parts)))

-- For a log of at most 65536 bytes that only grows between polls, and at least one line asked for:
-- logs -f first shows the end of the log from the start of a line on, with at most that many lines
-- and exactly that many if it is not the whole log; each poll then shows just what was added, and
-- the reads of a poll end.
pub logs-grown :
    (file : Str) (n : ℕ) (files : List (Option Str)) (parts : List Str)
    → 0 < n
    → length file ≤ tail_read_chunk
    → Grows file files parts
    → IsTail n file (write_tail file n).0
      × (follow_file files (write_tail file n).1
          ≡ some (concat parts, length (file ++ concat parts)))
unfolding write_tail
logs-grown file n files parts p h g =
    let e : read_from (length file) n ≡ 0 = small (length file) n h in
    (rw e (last_lines-IsTail file n p), follow_file-grown file files parts g)
