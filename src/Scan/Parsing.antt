-- ===== src/Scan/Parsing.antt =====
-- What the scan lists from the output of lsof.
use localapp.Base.{
  ℕ, suc, ◌≤◌, ◌≡◌, ◌≢◌, true, Option, none, some, List, [], ◌∷◌, take, drop, ◌==◌, ℤ, pos, negsuc,
  eqb_ℤ, All, Bool-cases, Option-cases, inl, inr, arith,
}
use localapp.Text.{Str, split, trim_right, last_index_byte}
use localapp.Text.Number.{atoi}
use localapp.Scan.{
  Listener, checked_port, is_local, socket_at, parse_socket_name, Current, listed, parse_line,
  parse_lines, parse_lsof, append_some,
}

-- A listener on the loopback address or on all of IPv4, of a known process.
pub record IsListed (l : Listener) : Type 0 where
  pub low : 1 ≤ l.port
  pub high : l.port ≤ 65535
  pub known : l.pid ≢ pos 0
  pub local : is_local l.address ≡ true

abbrev Listed : Option Listener → Type 0
Listed none = Unit
Listed (some l) = IsListed l

abbrev Socket : Option (Str × ℕ) → Type 0
Socket none = Unit
Socket (some (addr, port)) = (1 ≤ port) × (port ≤ 65535) × (is_local addr ≡ true)

checked_port-bounds : (n : Option ℤ) (p : ℕ) → checked_port n ≡ some p → (1 ≤ p) × (p ≤ 65535)
unfolding checked_port
checked_port-bounds none p h = cc
checked_port-bounds (some (negsuc n)) p h = cc
checked_port-bounds (some (pos n)) p h = (ground arith, ground arith)

socket_at-Socket : (name : Str) (i : Option ℕ) → Socket (socket_at name i)
socket_at-Socket name none = tt
socket_at-Socket name (some i) = elim (Option-cases (checked_port (atoi (drop (suc i) name)))) [
  | inl e ↦ rw (e, socket_at) tt
  | inr (q, e) ↦
      rw (e, socket_at)
        (elim (Bool-cases (is_local (take i name))) [
          | inl l ↦
              let (low, high) = checked_port-bounds (atoi (drop (suc i) name)) q e in
              rw l (low, high, l)
          | inr n ↦ rw n tt
        ])
]

listed-Listed : (c : Current) (s : Option (Str × ℕ)) → Socket s → Listed (listed c s)
listed-Listed c none h = tt
listed-Listed c (some (addr, port)) (low, high, local) = elim (Bool-cases (eqb_ℤ c.pid (pos 0))) [
  | inl e ↦ rw (e, listed) tt
  | inr e ↦
      rw (e, listed) (record { low = low; high = high; known = λ z. cc (rw z at e); local = local })
]

parse_line-Listed : (c : Current) (line : Str) → Listed (parse_line c line).0
unfolding parse_line parse_socket_name
parse_line-Listed c [] = tt
parse_line-Listed c (field ∷ []) = tt
parse_line-Listed c (field ∷ v ∷ value) = elim (Bool-cases (field == b'p')) [
  | inl e ↦ rw e tt
  | inr e ↦ rw e (elim (Bool-cases (field == b'c')) [
    | inl f ↦ rw f tt
    | inr f ↦ rw f (elim (Bool-cases (field == b'n')) [
      | inl g ↦
          rw g (listed-Listed c _ (socket_at-Socket (v ∷ value) (last_index_byte b':' (v ∷ value))))
      | inr g ↦ rw g tt
    ])
  ])
]

append_some-All :
    (l : Option Listener) (rest : List Listener)
    → Listed l
    → All IsListed rest
    → All IsListed (append_some l rest)
append_some-All none rest h k = k
append_some-All (some l) rest h k = (h, k)

parse_lines-All : (c : Current) (lines : List Str) → All IsListed (parse_lines c lines)
unfolding parse_lines
parse_lines-All c [] = tt
parse_lines-All c (line ∷ lines) =
    let found = parse_line c (trim_right b'\r' line) in
    append_some-All found.0 (parse_lines found.1 lines)
      (parse_line-Listed c (trim_right b'\r' line)) (parse_lines-All found.1 lines)

-- Whatever lsof prints, every listener that ParseLsof lists has a port between 1 and 65535, a
-- process id other than 0, and the address 127.0.0.1, 0.0.0.0 or *.
parse_lsof-IsListed : (out : Str) → All IsListed (parse_lsof out)
unfolding parse_lsof
parse_lsof-IsListed out = parse_lines-All (record { pid = pos 0; command = [] }) (split b'\n' out)
