-- ===== src/KeyShare/Presence.antt =====
-- The manager of connections (internal/keyshare/websocket_manager.go) against the connections that are there.
use enchanted_proxy.KeyShare.Listeners.{
  apply_all, Op, IsUnique-leave, leave-Shows, step, leave, join-Shows, join, IsUnique, at_key,
  IsFresh, present, Shows, Listener,
}
use enchanted_proxy.Prelude.{List, [], ◌∷◌, Text, text_key, nat_key, length, ◌≡◌, refl, ap}
use enchanted_proxy.KeyShare.Hub.{
  WebSocketManager, new_web_socket_manager, register_connection, unregister_connection,
  get_user_connection_count, send_to_session,
}

-- The manager shows the listeners, each of which stands there once.
pub record Reflects (m : WebSocketManager) (ls : List Listener) : Type 0 where
  pub sessions : Shows (λ l. l.session) m.connections m.conn_to_session ls
  pub users : Shows (λ l. l.user) m.user_connections m.conn_to_user ls
  pub unique : IsUnique ls

apply_all-Reflects :
    (ops : List Op) (m : WebSocketManager) (ls : List Listener)
    → IsFresh ops ls
    → Reflects m ls
    → Reflects (apply_all ops m) (present ops ls)
unfolding apply_all present register_connection unregister_connection
apply_all-Reflects [] m ls fresh r = r
apply_all-Reflects (join session user c ∷ ops) m ls fresh r =
    let l : Listener = record { conn = c; session = session; user = user } in
    apply_all-Reflects ops (register_connection session user c m) (l ∷ ls) fresh.1 (record {
      sessions =
          join-Shows (λ l. l.session) l m.connections m.conn_to_session ls fresh.0 r.sessions;
      users = join-Shows (λ l. l.user) l m.user_connections m.conn_to_user ls fresh.0 r.users;
      unique = (fresh.0, r.unique);
    })
apply_all-Reflects (leave c ∷ ops) m ls fresh r =
    apply_all-Reflects ops (unregister_connection c m) (step (leave c) ls) fresh (record {
      sessions =
          leave-Shows (λ l. l.session) c m.connections m.conn_to_session ls r.unique r.sessions;
      users = leave-Shows (λ l. l.user) c m.user_connections m.conn_to_user ls r.unique r.users;
      unique = IsUnique-leave c ls r.unique;
    })

-- Whatever connections come and go, each of them new when it comes: a message to a session is written to
-- exactly the connections of that session which are still there, each once, and the number that limits a
-- user's connections is the number of that user's connections which are still there.
pub manager_reflects :
    (ops : List Op) (k : Text)
    → IsFresh ops []
    → let m = apply_all ops new_web_socket_manager in
      (send_to_session k m ≡ at_key (λ (l : Listener). l.session) k (present ops []))
      × (get_user_connection_count k m
          ≡ length (at_key (λ (l : Listener). l.user) k (present ops [])))
unfolding send_to_session get_user_connection_count
manager_reflects ops k fresh =
    let r = apply_all-Reflects ops new_web_socket_manager [] fresh empty in
    (r.sessions.there k, ap length (r.users.there k))
  where
    empty : Reflects new_web_socket_manager []
    empty = record {
      sessions = record { there = λ k. refl; return = λ c. refl };
      users = record { there = λ k. refl; return = λ c. refl };
      unique = tt;
    }
