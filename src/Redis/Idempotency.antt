-- ===== src/Redis/Idempotency.antt =====
-- backend/app/services/idempotency.py: a mutation runs at most once for a key, and a repeated
-- request is answered from the first one's response.
use kids_chores_api.Grace.{second}
use kids_chores_api.Redis.{Cache, IsCache}
use kids_chores_api.Web.{>>=-ok, >>=-err, World, Web, pure, on_store, ◌>>=◌, ◌>>◌}
use kids_chores_api.Prelude.{◌+◌, ◌<◌, ◌∙◌, ℕ, ◌*◌, ◌≡◌, refl, Option, none, some}
use kids_chores_api.Models.{RowId, Time}
use kids_chores_api.Session.{ok, err, Error}

-- `_TTL_SECONDS`
abbrev pub ttl_seconds : ℕ
ttl_seconds = 24 * 60 * 60

-- `idem:{member_id}:{idempotency_key}`
abbrev pub IdemKey : Type 0
IdemKey = RowId × RowId

module _ {J T : Type 0} (C : Cache IdemKey J) (serialize : T → J) (deserialize : J → T) where
  -- `cached is not None` or not.
  unfoldable pub answer : Option J → IdemKey → Web C.Store T → Time → Web C.Store T
  answer (some cached) key handler now = pure (deserialize cached)
  answer none key handler now = do
    result ← handler
    on_store (C.set_nx now key (serialize result) ttl_seconds)
    pure result

  unfoldable pub run_idempotent : RowId → RowId → Web C.Store T → Time → Web C.Store T
  unfolding answer
  run_idempotent member_id idempotency_key handler now = do
    let key : IdemKey = (member_id, idempotency_key)
    cached ← on_store (λ s. (C.get now key s, s))
    answer cached key handler now

module _ {J T : Type 0} (C : Cache IdemKey J) (serialize : T → J) (deserialize : J → T)
    (lawful : IsCache C) (member_id key : RowId) (handler : Web C.Store T) (now : Time)
    (w : World C.Store) where
  abbrev caching : T → Web C.Store T
  caching a = on_store (C.set_nx now (member_id, key) (serialize a) ttl_seconds) >> pure a

  -- A key that is not cached runs the handler and caches what it returns.
  run_idempotent-free :
      C.get now (member_id, key) w.store ≡ none
      → run_idempotent C serialize deserialize member_id key handler now w ≡ (handler >>= caching) w
  unfolding run_idempotent
  run_idempotent-free free = rw free refl

  -- A failure is what the handler made of it: nothing is cached, so a retry runs again.
  pub run_idempotent-err :
      {e : Error} {v : World C.Store}
      → C.get now (member_id, key) w.store ≡ none
      → handler w ≡ (err e, v)
      → run_idempotent C serialize deserialize member_id key handler now w ≡ (err e, v)
  run_idempotent-err free failed = run_idempotent-free free ∙ >>=-err handler caching w failed

  -- A success returns the handler's result, and caches it for a day.
  pub run_idempotent-ok :
      {a : T} {v : World C.Store}
      → C.get now (member_id, key) w.store ≡ none
      → handler w ≡ (ok a, v)
      → C.get now (member_id, key) v.store ≡ none
      → run_idempotent C serialize deserialize member_id key handler now w
        ≡ (ok a, record v { store = C.set now (member_id, key) (serialize a) ttl_seconds v.store })
  run_idempotent-ok {a} {v} free done untouched =
      run_idempotent-free free
      ∙ >>=-ok handler caching w done
      ∙ (rw (lawful.set_nx-free now (member_id, key) (serialize a) ttl_seconds v.store untouched)
          refl)

  -- A key that is cached answers with the cached response, runs nothing and changes nothing.
  pub run_idempotent-cached :
      {j : J}
      → C.get now (member_id, key) w.store ≡ some j
      → run_idempotent C serialize deserialize member_id key handler now w ≡ (ok (deserialize j), w)
  unfolding run_idempotent
  run_idempotent-cached hit = rw hit refl

module _ {J T : Type 0} (C : Cache IdemKey J) (serialize : T → J) (deserialize : J → T)
    (lawful : IsCache C) (codec : (a : T) → deserialize (serialize a) ≡ a) (member_id key : RowId)
    (handler other : Web C.Store T) (now later : Time) where
  -- A request with a new key that succeeds, and whose handler leaves the key alone, is answered again
  -- with the response of the first, for a day and whatever its second handler would do; nothing runs,
  -- and nothing changes.
  pub run_idempotent_again :
      (w v : World C.Store) {a : T}
      → C.get now (member_id, key) w.store ≡ none
      → handler w ≡ (ok a, v)
      → C.get now (member_id, key) v.store ≡ none
      → later < now + ttl_seconds * second
      → let seen = (run_idempotent C serialize deserialize member_id key handler now w).1 in
        run_idempotent C serialize deserialize member_id key other later seen ≡ (ok a, seen)
  run_idempotent_again w v {a} free done untouched soon =
      rw
        (run_idempotent-ok C serialize deserialize lawful member_id key handler now w free done
          untouched)
        (run_idempotent-cached C serialize deserialize lawful member_id key other later _
            (lawful.get-set now later (member_id, key) (serialize a) ttl_seconds v.store soon)
          ∙ rw (codec a) refl)
