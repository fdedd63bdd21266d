-- ===== src/KeyShare/Hub.antt =====
-- internal/keyshare/websocket_manager.go: the open connections of each session and of each user, with the
-- way back from a connection. A connection is a number, a set of them a list without repetition.
use enchanted_proxy.Prelude.{
  ◌==◌, ℕ, not, List, [], ◌∷◌, Option, none, some, Text, if◌then◌else◌, text_key, nat_key, lookup,
  insert, remove, length, select, any,
}
use enchanted_proxy.KeyShare.Store.{Environment, Sessions, Code}
use enchanted_proxy.KeyShare.Service.{submit_encrypted_key, is_ok}

abbrev pub Conn : Type 0
Conn = ℕ

pub record WebSocketManager : Type 0 where
  pub connections : List (Text × List Conn)
  pub user_connections : List (Text × List Conn)
  pub conn_to_session : List (Conn × Text)
  pub conn_to_user : List (Conn × Text)

abbrev pub new_web_socket_manager : WebSocketManager
new_web_socket_manager = record {
  connections = [];
  user_connections = [];
  conn_to_session = [];
  conn_to_user = [];
}

-- The value of a missing key: an empty set, an empty string.
abbrev pub set_or_empty : Option (List Conn) → List Conn
set_or_empty none = []
set_or_empty (some xs) = xs

abbrev pub text_or_empty : Option Text → Text
text_or_empty none = []
text_or_empty (some t) = t

abbrev pub set_at : Text → List (Text × List Conn) → List Conn
set_at k m = set_or_empty (lookup k m)

abbrev pub set_insert : Conn → List Conn → List Conn
set_insert c xs = if any (λ x. x == c) xs then xs else c ∷ xs

abbrev pub set_delete : Conn → List Conn → List Conn
set_delete c = select λ x. not (x == c)

-- Both halves of RegisterConnection, for the sessions and for the users.
unfoldable pub join_set : Text → Conn → List (Text × List Conn) → List (Text × List Conn)
join_set k c m = insert k (set_insert c (set_at k m)) m

-- A set that becomes empty is deleted.
abbrev pub put_set : Text → List Conn → List (Text × List Conn) → List (Text × List Conn)
put_set k [] m = remove k m
put_set k (x ∷ xs) m = insert k (x ∷ xs) m

unfoldable pub leave_set : Text → Conn → List (Text × List Conn) → List (Text × List Conn)
leave_set k c m = elim (lookup k m) [ none ↦ m | some xs ↦ put_set k (set_delete c xs) m ]

unfoldable pub register_connection : Text → Text → Conn → WebSocketManager → WebSocketManager
register_connection session user c m = record {
  connections = join_set session c m.connections;
  user_connections = join_set user c m.user_connections;
  conn_to_session = insert c session m.conn_to_session;
  conn_to_user = insert c user m.conn_to_user;
}

unfoldable pub unregister_connection : Conn → WebSocketManager → WebSocketManager
unregister_connection c m = record {
  connections = leave_set (text_or_empty (lookup c m.conn_to_session)) c m.connections;
  user_connections = leave_set (text_or_empty (lookup c m.conn_to_user)) c m.user_connections;
  conn_to_session = remove c m.conn_to_session;
  conn_to_user = remove c m.conn_to_user;
}

unfoldable pub get_user_connection_count : Text → WebSocketManager → ℕ
get_user_connection_count user m = length (set_at user m.user_connections)

unfoldable pub get_session_connection_count : Text → WebSocketManager → ℕ
get_session_connection_count session m = length (set_at session m.connections)

-- SendToSession: the connections that a message is written to.
unfoldable pub send_to_session : Text → WebSocketManager → List Conn
send_to_session session m = set_at session m.connections

-- SubmitEncryptedKey with its broadcast: the sessions, the code, and who is sent the key.
unfoldable pub submit_and_send :
    Environment → Text → Text → Text → WebSocketManager → Sessions → Sessions × Code × List Conn
submit_and_send env user id key m db =
    let (db', code) = submit_encrypted_key env user id key db in
    (db', code, (if is_ok code then send_to_session id m else []))
