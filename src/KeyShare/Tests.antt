-- ===== src/KeyShare/Tests.antt =====
-- Runs of internal/keyshare on a few sessions and connections.
use enchanted_proxy.KeyShare.Acceptance.{submit_encrypted_key_iff, Accepts}
use enchanted_proxy.Prelude.{
  ◌↔◌, ◌≤◌, ℕ, true, false, List, [], ◌∷◌, ◌++◌, some, Text, codes, text_key, text_eq_iff, lookup,
  insert, length, ◌≡◌, ◌≢◌, ◌⊎◌, inl, refl, arith,
}
use enchanted_proxy.KeyShare.Store.{
  EphemeralPublicKey, KeyShareSession, Sessions, Environment, ok, permission_denied,
  resource_exhausted, get_session, update_session_with_key, count_recent_sessions, insert_session,
}
use enchanted_proxy.KeyShare.Service.{
  create_session, submit_encrypted_key, cleanup_expired_sessions, check_rate_limit,
  check_submission, store_key, validate_ephemeral_public_key, new_session,
}
use enchanted_proxy.KeyShare.Hub.{
  new_web_socket_manager, send_to_session, get_user_connection_count, register_connection,
  unregister_connection, leave_set, join_set,
}
use enchanted_proxy.KeyShare.Presence.{manager_reflects}
use enchanted_proxy.KeyShare.Listeners.{apply_all, at_key, present, Listener}
use enchanted_proxy.KeyShare.Listeners
use enchanted_proxy.KeyShare.Submission.{IsOpen, submissions_race, keyed}
use enchanted_proxy.KeyShare.WriteOnce.{key_written_once, KeptOrGone}
use enchanted_proxy.KeyShare.WriteOnce
use enchanted_proxy.KeyShare.Quiet.{sessions-WithinLimit, WithinLimit}
use enchanted_proxy.KeyShare.Limits.{cleanup_lifts_limit}
use enchanted_proxy.KeyShare.Listen.{
  serving_panics, start_serving, Serving, Step, EndsInPanic, leave_handler, leave_reader, expires,
  read_fails, here, next,
}

abbrev p256 : EphemeralPublicKey
p256 = record { kty = codes "EC"; crv = codes "P-256"; x = codes "x"; y = codes "y" }

abbrev env_at : ℕ → Text → Environment
env_at now id = record {
  now = now;
  session_id = id;
  create_fails = false;
  get_fails = false;
  update_fails = false;
  count_fails = false;
  delete_fails = false;
}

abbrev ann : Text
ann = codes "ann"

abbrev waiting : KeyShareSession
waiting = new_session (env_at 1_000 (codes "s")) ann p256

abbrev one_session : Sessions
one_session = (codes "s", waiting) ∷ []

created : create_session (env_at 1_000 (codes "s")) ann p256 [] ≡ (one_session, ok)
unfolding create_session validate_ephemeral_public_key check_rate_limit count_recent_sessions
    insert_session
created = refl

submitted :
    submit_encrypted_key (env_at 1_300 []) ann (codes "s") (codes "k") one_session
    ≡ ((codes "s", keyed (env_at 1_300 []) (codes "k") waiting) ∷ [], ok)
unfolding submit_encrypted_key get_session update_session_with_key
submitted = refl

not_hers :
    (submit_encrypted_key (env_at 1_001 []) (codes "bob") (codes "s") (codes "k") one_session).1
    ≡ permission_denied
unfolding submit_encrypted_key get_session
not_hers = refl

checked :
    (now : ℕ) → now ≤ 1_300 → check_submission (env_at now []) ann (codes "s") one_session ≡ ok
unfolding check_submission get_session
checked now h = ground arith

submissions_race_example :
    let env = env_at 1_001 [] in
    let first = store_key env (codes "s") (codes "k") one_session in
    let second = store_key env (codes "s") (codes "l") first.0 in
    (s : KeyShareSession) × (first.1 ≡ ok)
    × (second.1 ≡ ok)
    × (lookup (codes "s") second.0 ≡ some s)
    × (s.encrypted_private_key ≡ codes "l")
submissions_race_example =
    submissions_race (env_at 1_001 []) (env_at 1_001 []) ann (codes "s") (codes "k") (codes "l")
      one_session (checked 1_001 (omega arith)) (checked 1_001 (omega arith)) refl refl refl refl

abbrev done : KeyShareSession
done = keyed (env_at 1_300 []) (codes "k") waiting

abbrev later_ops : List WriteOnce.Op
later_ops =
    WriteOnce.submit (env_at 1_301 []) ann (codes "s") (codes "l")
    ∷ WriteOnce.create (env_at 1_302 (codes "t")) ann p256
    ∷ WriteOnce.cleanup (env_at 1_302 [])
    ∷ []

other_session : codes "t" ≢ codes "s"
other_session h = let clash : false ≡ true = (text_eq_iff (codes "t") (codes "s")).1 h in cc

key_written_once_example :
    KeptOrGone (codes "s") done (WriteOnce.apply_all later_ops ((codes "s", done) ∷ []))
key_written_once_example =
    key_written_once later_ops (codes "s") done ((codes "s", done) ∷ []) refl (other_session, tt)
      (inl refl)

abbrev ask : ℕ → Text → WriteOnce.Op
ask now id = WriteOnce.create (env_at now id) ann p256

abbrev requests : List WriteOnce.Op
requests =
    ask 1 (codes "a")
    ∷ ask 2 (codes "b")
    ∷ ask 3 (codes "c")
    ∷ ask 4 (codes "d")
    ∷ ask 5 (codes "e")
    ∷ ask 6 (codes "f")
    ∷ ask 7 (codes "g")
    ∷ ask 8 (codes "h")
    ∷ ask 9 (codes "i")
    ∷ ask 10 (codes "j")
    ∷ []

sessions-WithinLimit_example :
    WithinLimit 11 (WriteOnce.apply_all (requests ++ ask 11 (codes "k") ∷ []) [])
sessions-WithinLimit_example =
    sessions-WithinLimit 0 (requests ++ ask 11 (codes "k") ∷ []) [] (ground arith)
      (λ v named. omega arith)

abbrev ten_sessions : Sessions
ten_sessions =
    (codes "a", waiting)
    ∷ (codes "b", waiting)
    ∷ (codes "c", waiting)
    ∷ (codes "d", waiting)
    ∷ (codes "e", waiting)
    ∷ (codes "f", waiting)
    ∷ (codes "g", waiting)
    ∷ (codes "h", waiting)
    ∷ (codes "i", waiting)
    ∷ (codes "j", waiting)
    ∷ []

cleanup_lifts_limit_example :
    (check_rate_limit (env_at 1_301 []) ann ten_sessions ≡ resource_exhausted)
    × (check_rate_limit
          (env_at 1_301 [])
          ann
          (cleanup_expired_sessions (env_at 1_301 []) ten_sessions).0
        ≡ ok)
cleanup_lifts_limit_example =
    cleanup_lifts_limit (env_at 1_301 []) ann ten_sessions refl refl (omega arith) (omega arith)
      (omega arith)

abbrev comings : List Listeners.Op
comings =
    Listeners.join (codes "s") ann 1
    ∷ Listeners.join (codes "t") ann 2
    ∷ Listeners.join (codes "s") ann 3
    ∷ Listeners.leave 1
    ∷ []

one_left : send_to_session (codes "s") (apply_all comings new_web_socket_manager) ≡ 3 ∷ []
unfolding send_to_session apply_all register_connection unregister_connection leave_set join_set
one_left = refl

manager_reflects_example :
    let m = apply_all comings new_web_socket_manager in
    (send_to_session ann m ≡ at_key (λ (l : Listener). l.session) ann (present comings []))
    × (get_user_connection_count ann m
        ≡ length (at_key (λ (l : Listener). l.user) ann (present comings [])))
manager_reflects_example = manager_reflects comings ann (refl, (refl, (refl, tt)))

abbrev expired_first : Serving
expired_first = leave_reader (leave_handler start_serving)

serving_panics_example : ((t : Serving) × Step expired_first t) ⊎ EndsInPanic expired_first
unfolding leave_handler
serving_panics_example =
    serving_panics expired_first (next (next here (expires refl refl)) (read_fails refl refl))

submit_encrypted_key_iff_example :
    let env = env_at 1_300 [] in
    let after = submit_encrypted_key env ann (codes "s") (codes "k") one_session in
    ((after.1 ≡ ok)
      ↔ ((s : KeyShareSession) × Accepts env ann (codes "s") (codes "k") one_session s))
    × (((s : KeyShareSession) × IsOpen env ann (codes "s") one_session s
          × (after ≡ (insert (codes "s") (keyed env (codes "k") s) one_session, ok)))
        ⊎ ((after.0 ≡ one_session) × (after.1 ≢ ok)))
submit_encrypted_key_iff_example =
    submit_encrypted_key_iff (env_at 1_300 []) ann (codes "s") (codes "k") one_session
