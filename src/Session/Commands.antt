-- ===== src/Session/Commands.antt =====
-- redis_session.cpp: the commands. The callbacks of the store are named by the number `id` of the session.
use kvd.Base.{
  ℕ, Bool, not, ◌&&◌, ◌||◌, List, [], ◌∷◌, Option, none, some, if◌then◌else◌, Result, ok, err,
  undefined, ◌>>=◌,
}
use kvd.Proto.{Status, is_ok}
use kvd.ReadOnly.{bytes_eq}
use kvd.Store
use kvd.Store.{RedisStore, RaftCommit}
use kvd.Store.Glob
use kvd.Session.{Element, Reply, RedisSession, send_reply, send_printed}
use kvd.Session.Replies.{
  codes, ok_text, wrong_type, pong, null_text, err_text, unknown_command, wrong_number_arguments,
  to_string, bulk_text, array_text,
}

-- The texts of the elements, if all of them are strings.
unfoldable pub strings : List Element → Option (List (List ℕ))
strings [] = some []
strings (element ∷ rest) =
    let more = strings rest in
    if element.is_string
    then elim more [ none ↦ none | some strs ↦ some (element.str ∷ strs) ]
    else none

-- A key of the command table.
unfoldable pub is_command : List ℕ → List ℕ → List ℕ → Bool
is_command lower upper name = bytes_eq name lower || bytes_eq name upper

module _ {Reader : Type 0} where
  -- The callback of set_command and del_command.
  unfoldable pub answered : Status → RedisSession Reader → Result (RedisSession Reader)
  answered status s =
      if is_ok status then send_reply ok_text s else send_printed (err_text (to_string status)) s

  unfoldable pub ping_command : RedisSession Reader → Result (RedisSession Reader)
  ping_command = send_reply pong

  unfoldable pub wrong_arguments : List ℕ → RedisSession Reader → Result (RedisSession Reader)
  wrong_arguments name = send_printed (wrong_number_arguments name)

  unfoldable pub get_command :
      List Element → RedisStore → RedisSession Reader → Result (RedisSession Reader)
  get_command (command ∷ key ∷ []) store s =
      if key.is_string
      then elim (Store.get key.str store) [
        | none ↦ send_reply null_text s
        | some value ↦ send_reply (bulk_text value) s
      ]
      else send_reply wrong_type s
  get_command _ store s = wrong_arguments (codes "get") s

  unfoldable pub keys_command :
      List Element → RedisStore → RedisSession Reader → Result (RedisSession Reader)
  keys_command (command ∷ pattern ∷ []) store s =
      if pattern.is_string
      then elim (Glob.keys pattern.str store.key_values) [
        | none ↦ err undefined
        | some found ↦ send_reply (array_text found) s
      ]
      else send_reply wrong_type s
  keys_command _ store s = wrong_arguments (codes "keys") s

module _ {Reader : Type 0} (pack : RaftCommit → List ℕ) (id : ℕ) where
  unfoldable pub set_command :
      List Element → RedisStore → RedisSession Reader → Result (RedisStore × RedisSession Reader)
  set_command (command ∷ key ∷ value ∷ []) store s =
      if key.is_string && value.is_string
      then ok (Store.set pack key.str value.str id store, s)
      else (send_reply wrong_type s >>= λ t. ok (store, t))
  set_command _ store s = wrong_arguments (codes "set") s >>= λ t. ok (store, t)

  unfoldable pub del_command :
      List Element → RedisStore → RedisSession Reader → Result (RedisStore × RedisSession Reader)
  unfolding strings
  del_command (command ∷ first ∷ more) store s = elim (strings (first ∷ more)) [
    | none ↦ send_reply wrong_type s >>= λ t. ok (store, t)
    | some keys ↦ ok (Store.del pack keys id store, s)
  ]
  del_command _ store s = wrong_arguments (codes "del") s >>= λ t. ok (store, t)

  -- The command table; a command leaves the store as it is, unless it says so.
  unfoldable pub run_command :
      List ℕ
      → List Element
      → RedisStore
      → RedisSession Reader
      → Result (RedisStore × RedisSession Reader)
  run_command name elements store s =
      if is_command (codes "ping") (codes "PING") name
      then (ping_command s >>= λ t. ok (store, t))
      else if is_command (codes "get") (codes "GET") name
      then (get_command elements store s >>= λ t. ok (store, t))
      else if is_command (codes "set") (codes "SET") name
      then set_command elements store s
      else if is_command (codes "del") (codes "DEL") name
      then del_command elements store s
      else if is_command (codes "keys") (codes "KEYS") name
      then (keys_command elements store s >>= λ t. ok (store, t))
      else (send_printed (unknown_command name) s >>= λ t. ok (store, t))

  unfoldable pub on_redis_reply :
      Reply → RedisStore → RedisSession Reader → Result (RedisStore × RedisSession Reader)
  on_redis_reply reply store s =
      if not reply.is_array
      then (send_reply wrong_type s >>= λ t. ok (store, t))
      else elim reply.elements [
        | [] ↦ wrong_arguments [] s >>= λ t. ok (store, t)
        | command ∷ rest ↦
            if command.is_string
            then run_command command.str (command ∷ rest) store s
            else (send_reply wrong_type s >>= λ t. ok (store, t))
      ]
