-- ===== src/Logstream/Window.antt =====
-- The window of one service against everything that the service ever wrote, `total`.
use localapp.Base.{
  ℕ, ◌+◌, ◌-◌, ◌^◌, ◌≤◌, ◌<◌, ◌≡◌, ◌⊎◌, refl, ap, sym, ◌∙◌, true, false, ◌||◌, some, [], ◌++◌,
  arith, length, drop, length-append, length-drop, drop-add, drop-append, ltb, ◌==◌, Bool-cases,
  inl, inr,
}
use localapp.Text.{Str}
use localapp.Logstream.{
  Entry, max_lines, max_bytes, add64, count_lines, cut_for, trim, append_entry, end, new_entry,
  Reading, read_entry,
}
use localapp.Logstream.Trim.{cut_for-IsCut, IsCut}

-- The entry holds the end of the stream, and `start` is the offset of its first byte.
pub record Holds (total : Str) (e : Entry) : Type 0 where
  pub inside : e.start + length e.buf ≡ length total
  pub window : e.buf ≡ drop e.start total

-- At most MaxLines lines and MaxBytes bytes.
pub record IsBounded (e : Entry) : Type 0 where
  pub lines : count_lines e.buf ≤ max_lines
  pub bytes : length e.buf ≤ max_bytes

pub new_entry-Holds : (k : Str) → Holds [] (new_entry k)
new_entry-Holds k = record { inside = refl; window = refl }

abbrev the_cut : Entry → ℕ
the_cut e = cut_for max_lines max_bytes e.buf

the_cut-IsCut : (e : Entry) → IsCut max_lines max_bytes e.buf (the_cut e)
the_cut-IsCut e = cut_for-IsCut max_lines max_bytes e.buf (omega arith)

trim-IsBounded : (e : Entry) → IsBounded (trim e)
unfolding trim
trim-IsBounded e = elim (Bool-cases (the_cut e == 0)) [
  | inl t ↦ rw t (
      let c = the_cut-IsCut e in
      let z : the_cut e ≡ 0 = ground arith in
      record { lines = rw z at c.lines; bytes = rw z at c.bytes })
  | inr t ↦ rw t (record { lines = (the_cut-IsCut e).lines; bytes = (the_cut-IsCut e).bytes })
]

trim-Holds :
    (total : Str) (e : Entry) → length total < 2 ^ 64 → Holds total e → Holds total (trim e)
unfolding trim
trim-Holds total e small h = elim (Bool-cases (the_cut e == 0)) [
  | inl t ↦ rw t h
  | inr t ↦ rw t (
      let c = the_cut-IsCut e in
      let moved : add64 e.start (the_cut e) ≡ e.start + the_cut e =
        omega (arith, c.inside, h.inside) in
      record {
        inside = omega (arith, moved, length-drop (the_cut e) e.buf, c.inside, h.inside);
        window =
            ap (drop (the_cut e)) h.window
            ∙ sym (drop-add e.start (the_cut e) total)
            ∙ ap (λ (k : ℕ). drop k total) (sym moved);
      })
]

-- As long as fewer than 2^64 bytes were written, an entry holds the end of all that its service
-- wrote, and its start is the offset of its first byte, before and after an append.
pub append_entry-Holds :
    (total text : Str) (clock : ℕ) (e : Entry)
    → length (total ++ text) < 2 ^ 64
    → Holds total e
    → Holds (total ++ text) (append_entry text clock e)
unfolding append_entry
append_entry-Holds total text clock e small h =
    let longer = record e { buf = e.buf ++ text } in
    let k : Holds (total ++ text) longer = record {
      inside = omega (arith, length-append e.buf text, length-append total text, h.inside);
      window =
          ap (λ b. b ++ text) h.window
          ∙ sym (drop-append e.start total text (omega (arith, h.inside)));
    } in
    let t = trim-Holds (total ++ text) longer small k in
    record { inside = t.inside; window = t.window }

-- Whatever is appended to whatever entry, afterwards it holds at most 1000 lines and 262144 bytes.
append_entry-IsBounded :
    (text : Str) (clock : ℕ) (e : Entry) → IsBounded (append_entry text clock e)
unfolding append_entry
append_entry-IsBounded text clock e =
    let t = trim-IsBounded (record e { buf = e.buf ++ text }) in
    record { lines = t.lines; bytes = t.bytes }

-- What a read from `offset` returns: all that follows the offset in the stream, or, if the offset
-- is outside the window, the whole window with `reset`.
pub record IsReading (total : Str) (start offset : ℕ) (r : Reading) : Type 0 where
  pub next : r.next ≡ length total
  pub captured : r.captured ≡ true
  pub text :
      ((r.reset ≡ false)
        × (start ≤ offset)
        × (offset ≤ length total)
        × (r.text ≡ drop offset total))
      ⊎ ((r.reset ≡ true)
          × ((offset < start) ⊎ (length total < offset))
          × (r.text ≡ drop start total))

end-total : (total : Str) (e : Entry) → length total < 2 ^ 64 → Holds total e → end e ≡ length total
unfolding end
end-total total e small h = omega (arith, h.inside)

-- For fewer than 2^64 bytes written, a read returns all that follows the offset if that is inside
-- the window, and otherwise the whole window with reset; the next offset is the end of the stream.
pub read_entry-IsReading :
    (total : Str) (e : Entry) (offset : ℕ)
    → length total < 2 ^ 64
    → Holds total e
    → IsReading total e.start offset (read_entry (some e) offset)
unfolding read_entry
read_entry-IsReading total e offset small h =
    let last = end-total total e small h in
    elim (Bool-cases (ltb offset e.start || ltb (end e) offset)) [
      | inl t ↦
          rw t (record { next = last; captured = refl; text = inr (refl, ground arith, h.window) })
      | inr t ↦ rw t (record {
        next = last;
        captured = refl;
        text = inl (refl, ground arith, ground arith, follows (ground arith));
      })
    ]
  where
    follows : e.start ≤ offset → drop (offset - e.start) e.buf ≡ drop offset total
    follows k =
        ap (drop (offset - e.start)) h.window
        ∙ sym (drop-add e.start (offset - e.start) total)
        ∙ ap (λ (n : ℕ). drop n total) (omega arith)
