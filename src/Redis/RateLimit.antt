-- ===== src/Redis/RateLimit.antt =====
-- backend/app/services/rate_limit.py: a fixed window of attempts for a key.
use kids_chores_api.Grace.{second}
use kids_chores_api.Redis.{IsCounters, Counters}
use kids_chores_api.Prelude.{
  leb, length, refl, ◌-◌, arith, false, ◌*◌, ap, ◌∙◌, ◌+◌, some, [], ◌≤◌, ◌≡◌, ◌<◌, ◌∷◌, List, suc,
  ℕ, ◌==◌, ltb, if◌then◌else◌,
}
use kids_chores_api.Models.{Time}
use kids_chores_api.Session.{Result, ok, err, rate_limit_exceeded}

module _ {K : Type 0} (C : Counters K) where
  -- `redis.incr`, with the time to live of a new window.
  hit : K → ℕ → Time → C.Store → ℕ × C.Store
  hit key window_seconds now s =
      let (count, s') = C.incr now key s in
      (count, if count == 1 then C.expire now key window_seconds s' else s')

  unfoldable pub check_rate_limit : K → ℕ → ℕ → Time → C.Store → Result Unit × C.Store
  unfolding hit
  check_rate_limit key max_attempts window_seconds now s =
      let (count, s') = hit key window_seconds now s in
      (if ltb max_attempts count then err rate_limit_exceeded else ok tt, s')

abbrev pub at_most : ℕ → ℕ → ℕ
at_most limit n = if leb n limit then n else limit

-- How many of the attempts at these times pass.
module _ {K : Type 0} (C : Counters K) (key : K) (max_attempts window_seconds : ℕ) where
  one_more : Result Unit → ℕ → ℕ
  one_more (ok _) n = suc n
  one_more (err _) n = n

  unfoldable pub allowed : List Time → C.Store → ℕ
  unfolding one_more
  allowed [] s = 0
  allowed (now ∷ later) s =
      let (r, s') = check_rate_limit C key max_attempts window_seconds now s in
      one_more r (allowed later s')

-- Times that do not go back and stay before a deadline.
abbrev pub Within : Time → Time → List Time → Type 0
Within d t [] = Unit
Within d t (u ∷ us) = (t ≤ u) × (u < d) × Within d u us

module _ {K : Type 0} (C : Counters K) (lawful : IsCounters C) (key : K)
    (max_attempts window_seconds : ℕ) (long : 0 < window_seconds) where
  -- A window that is open until `d` and has seen `n` attempts.
  record IsOpen (d t : Time) (n : ℕ) (s : C.Store) : Type 0 where
    until : C.deadline key s ≡ some d
    seen : C.count t key s ≡ n
    some_seen : 0 < n

  abbrev check : Time → C.Store → Result Unit × C.Store
  check = check_rate_limit C key max_attempts window_seconds

  first_hit :
      (now : Time) (s : C.Store)
      → C.count now key s ≡ 0
      → IsOpen (now + window_seconds * second) now 1 (check now s).1
  unfolding check_rate_limit
  first_hit now s fresh =
      let one : (C.incr now key s).0 ≡ 1 = lawful.incr-count now key s ∙ ap suc fresh in
      let counted : C.count now key (C.incr now key s).1 ≡ 1 =
        lawful.count-incr now key s ∙ ap suc fresh in
      rw one (record {
        until =
            lawful.deadline-expire now key window_seconds (C.incr now key s).1
              (rw counted (omega arith));
        seen = lawful.count-expire now key window_seconds (C.incr now key s).1 long ∙ counted;
        some_seen = omega arith;
      })

  next_hit :
      (d t now : Time) (n : ℕ) (s : C.Store)
      → IsOpen d t n s
      → t ≤ now
      → now < d
      → IsOpen d now (suc n) (check now s).1 × ((C.incr now key s).0 ≡ suc n)
  unfolding check_rate_limit
  next_hit d t now n s h p q =
      let same : C.count now key s ≡ n = lawful.count-later t now d key s h.until p q ∙ h.seen in
      let more : (C.incr now key s).0 ≡ suc n = lawful.incr-count now key s ∙ ap suc same in
      let many : ((C.incr now key s).0 == 1) ≡ false = rw more (ground (arith, h.some_seen)) in
      (
        rw many (record {
          until = lawful.deadline-incr now key s (rw same h.some_seen) ∙ h.until;
          seen = lawful.count-incr now key s ∙ ap suc same;
          some_seen = omega arith;
        }),
        more,
      )

  -- What an attempt answers, by the number that `incr` returned.
  check-result :
      (now : Time) (s : C.Store) (n : ℕ)
      → (C.incr now key s).0 ≡ n
      → (check now s).0 ≡ (if ltb max_attempts n then err rate_limit_exceeded else ok tt)
  unfolding check_rate_limit
  check-result now s n e = rw e refl

  -- In an open window what is left of the limit passes, and no more.
  allowed_open :
      (d t : Time) (n : ℕ) (s : C.Store) (times : List Time)
      → IsOpen d t n s
      → Within d t times
      → allowed C key max_attempts window_seconds times s
        ≡ at_most (max_attempts - n) (length times)
  unfolding allowed
  allowed_open d t n s [] h k = ground arith
  allowed_open d t n s (now ∷ times) h (p, q, k) =
      let (open', more) = next_hit d t now n s h p q in
      let ih = allowed_open d now (suc n) (check now s).1 times open' k in
      rw (check-result now s (suc n) more) (ground (arith, ih))

  -- Of the attempts in a window exactly the first `max_attempts` pass: the window starts with the
  -- first attempt for a key that has no number, and the attempts do not prolong it.
  pub allowed_window :
      (now : Time) (s : C.Store) (times : List Time)
      → C.count now key s ≡ 0
      → Within (now + window_seconds * second) now times
      → allowed C key max_attempts window_seconds (now ∷ times) s
        ≡ at_most max_attempts (length (now ∷ times))
  unfolding allowed
  allowed_window now s times fresh k =
      let ih =
        allowed_open (now + window_seconds * second) now 1 (check now s).1 times
          (first_hit now s fresh) k in
      rw (check-result now s 1 (lawful.incr-count now key s ∙ ap suc fresh)) (ground (arith, ih))

  -- A window that an attempt has opened ends when its seconds have passed: then the key has no number
  -- again.
  pub window_over :
      (now later : Time) (s : C.Store)
      → C.count now key s ≡ 0
      → now + window_seconds * second ≤ later
      → C.count later key (check now s).1 ≡ 0
  window_over now later s fresh over =
      lawful.count-expired later _ key (check now s).1 (first_hit now s fresh).until over
