-- ===== src/Dashboard/Streams.antt =====
-- The bound on the open log streams, over any sequence of requests and of streams that end, with
-- stream requests that overlap.
use localapp.Base.{
  ℕ, zero, suc, ◌+◌, ◌≤◌, ◌<◌, ◌≡◌, refl, ◌∙◌, true, false, Bool, Option, none, some, List, [], ◌∷◌,
  if◌then◌else◌, Bool-cases, inl, inr, arith, ltb,
}
use localapp.Registry.Store.{Faults}
use localapp.Logstream.{Store}
use localapp.Dashboard.Contents.{Handler}
use localapp.Dashboard.{
  Request, Response, State, max_log_streams, count_stream, close_stream, serve_http,
}
use localapp.Dashboard.Counted.{is_stream, IsCounted, serve_http-IsCounted}

-- The state, with the number of streams that are really open, and of those that are refused but
-- still counted.
pub record Live : Type 0 where
  pub state : State
  pub live : ℕ
  pub refused : ℕ

-- A request that is served with no other in between, the two atomic operations of a stream request
-- that others may come between, or the end of an open stream.
pub data Happening : Type 0 where
  request : Faults → Request → Happening
  count : Happening
  back_off : Happening
  hangup : Happening

abbrev opened : Response × State → Live → Live
opened r l = record l { state = r.1; live = if is_stream r.0.page then l.live + 1 else l.live }

abbrev counted : Live → Bool × State → Live
counted l (true, st) = record l { state = st; refused = l.refused + 1 }
counted l (false, st) = record l { state = st; live = l.live + 1 }

abbrev on_count : Live → Option Store → Live
on_count l none = l
on_count l (some logs) = counted l (count_stream l.state)

abbrev backed_off : Live → ℕ → Live
backed_off l zero = l
backed_off l (suc n) = record l { state = close_stream l.state; refused = n }

abbrev hang_up : Live → ℕ → Live
hang_up l zero = l
hang_up l (suc n) = record l { state = close_stream l.state; live = n }

unfoldable pub step : Handler → Live → Happening → Live
unfolding count_stream
step h l (request faults r) = opened (serve_http h faults r l.state) l
step h l count = on_count l l.state.logs
step h l back_off = backed_off l l.refused
step h l hangup = hang_up l l.live

unfoldable pub run : Handler → Live → List Happening → Live
run h l [] = l
run h l (x ∷ xs) = run h (step h l x) xs

-- The counter is the number of open streams and of those about to be refused, and at most 32 are
-- open.
pub record IsBounded (l : Live) : Type 0 where
  pub exact : l.state.streams ≡ l.live + l.refused
  pub bounded : l.live ≤ max_log_streams

opened-IsBounded :
    (l : Live) (r : Response × State) → IsCounted l.state r → IsBounded l → IsBounded (opened r l)
unfolding IsCounted
opened-IsBounded l r (inl (p, e, k)) b = record {
  exact = rw p (omega (arith, e, b.exact));
  bounded = rw p (omega (arith, k, b.exact));
}
opened-IsBounded l r (inr (p, e)) b = record {
  exact = rw p (e ∙ b.exact);
  bounded = rw p b.bounded;
}

counted-IsBounded : (l : Live) → IsBounded l → IsBounded (counted l (count_stream l.state))
unfolding count_stream
counted-IsBounded l b = elim (Bool-cases (ltb max_log_streams (l.state.streams + 1))) [
  | inl e ↦ rw (e, counted) (record { exact = omega (arith, b.exact); bounded = b.bounded })
  | inr e ↦
      let room : l.state.streams < max_log_streams = ground arith in
      rw (e, counted)
        (record { exact = omega (arith, b.exact); bounded = omega (arith, room, b.exact) })
]

on_count-IsBounded : (l : Live) (logs : Option Store) → IsBounded l → IsBounded (on_count l logs)
on_count-IsBounded l none b = b
on_count-IsBounded l (some logs) b = counted-IsBounded l b

backed_off-IsBounded : (l : Live) (n : ℕ) → l.refused ≡ n → IsBounded l → IsBounded (backed_off l n)
unfolding close_stream
backed_off-IsBounded l zero e b = b
backed_off-IsBounded l (suc n) e b = record {
  exact = omega (arith, e, b.exact);
  bounded = b.bounded;
}

hang_up-IsBounded : (l : Live) (n : ℕ) → l.live ≡ n → IsBounded l → IsBounded (hang_up l n)
unfolding close_stream
hang_up-IsBounded l zero e b = b
hang_up-IsBounded l (suc n) e b = record {
  exact = omega (arith, e, b.exact);
  bounded = omega (arith, e, b.bounded);
}

step-IsBounded : (h : Handler) (l : Live) (x : Happening) → IsBounded l → IsBounded (step h l x)
unfolding step
step-IsBounded h l (request faults r) b =
    opened-IsBounded l (serve_http h faults r l.state) (serve_http-IsCounted h faults r l.state) b
step-IsBounded h l count b = on_count-IsBounded l l.state.logs b
step-IsBounded h l back_off b = backed_off-IsBounded l l.refused refl b
step-IsBounded h l hangup b = hang_up-IsBounded l l.live refl b

-- Over any sequence of requests to the dashboard and of streams that end, and with stream requests
-- whose two atomic operations on the counter come between others, the counter is the number of open
-- log streams and of those that are about to be refused, and at most 32 are open.
pub run-IsBounded :
    (h : Handler) (l : Live) (xs : List Happening) → IsBounded l → IsBounded (run h l xs)
unfolding run
run-IsBounded h l [] b = b
run-IsBounded h l (x ∷ xs) b = run-IsBounded h (step h l x) xs (step-IsBounded h l x b)
