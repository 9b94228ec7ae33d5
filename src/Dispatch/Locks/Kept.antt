-- ===== src/Dispatch/Locks/Kept.antt =====
-- What a session lock leaves behind.
use chat_aiagent.Prelude.{ℕ, ◌≡◌, inl, inr, String, ◌∷◌, any, arith, eq_refl, Bool-cases}
use chat_aiagent.Dispatch.Locks.{Locks, is_other, try_lock, unlock, Ending, with_session_lock}

unlock_first :
    (key : ℕ) (session : String) (locks : Locks)
    → unlock key session ((key, session) ∷ locks) ≡ locks
unfolding unlock
unlock_first key session locks = ground (arith, eq_refl session)

module _ {S A E : Type 0} (hashtext : String → ℕ) where
  -- However the block ends, with a result or an exception of its body or without the lock, the locks
  -- are the same as before, where the body itself leaves them as they are.
  pub with_session_lock_lem :
      (session thread_id : String) (body : Locks → S → Locks × S × Ending A E) (locks : Locks)
      (s : S)
      → ((l : Locks) (t : S) → (body l t).0 ≡ l)
      → (with_session_lock hashtext session thread_id body locks s).0 ≡ locks
  unfolding with_session_lock try_lock
  with_session_lock_lem session thread_id body locks s same =
      elim (Bool-cases (any (is_other (hashtext thread_id) session) locks)) [
        | inl y ↦ ground (arith, y)
        | inr n ↦ ground (
          arith,
          n,
          same ((hashtext thread_id, session) ∷ locks) s,
          unlock_first (hashtext thread_id) session locks,
        )
      ]
