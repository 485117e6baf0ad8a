-- ===== src/Drive/Client.antt =====
-- src/drive_client.py: the requests of `DriveClient`. The service's answers are a parameter, which may
-- depend on the requests before; a session is what the client keeps. Methods stand in the children.
pub mod Returns
pub mod Sends
pub mod Folder
pub mod Content
pub mod Shared
mod Tests
use obsidian_sync.Base.{ℕ, String, Bool, true, false, Option, none, some, List, [], ◌∷◌, Dict}
use obsidian_sync.Drive.Folders.{Caches}
use obsidian_sync.Drive.Retry.{
  Response, answered, http_status, no_network, Executed, returned, file_missing, token_gone,
  passed_on, execute_with_retry,
}

-- the fields of a file that a request names
pub record Stored : Type 0 where
  pub id : String
  pub md5_checksum : Option String
  pub app_properties : Option (Dict String)
  pub version : Option String
  pub parents : Option (List String)

-- the body of a request that creates or changes a file, and its media
pub record Body : Type 0 where
  pub name : Option String
  pub mime_type : Option String
  pub parent : Option String
  pub app_properties : Option (Dict String)
  pub trashed : Bool
  pub add_parents : Option String
  pub remove_parents : List String
  pub media : Option String

abbrev pub empty_body : Body
empty_body = record {
  name = none;
  mime_type = none;
  parent = none;
  app_properties = none;
  trashed = false;
  add_parents = none;
  remove_parents = [];
  media = none;
}

-- a request of the Drive API
pub data Call : Type 0 where
  list_files : String → Call
  create_file : Body → Call
  update_file : String → Body → Call
  get_file : String → Call
  get_media : String → Call
  get_start_token : Call

-- The service: its response to a request after the requests before and the attempts so far.
pub record Service : Type 0 where
  pub on_list : List Call → String → ℕ → Response (List String)
  pub on_create : List Call → Body → ℕ → Response Stored
  pub on_update : List Call → String → Body → ℕ → Response Stored
  pub on_get : List Call → String → ℕ → Response Stored
  pub on_media : List Call → String → ℕ → Response String
  pub on_token : List Call → ℕ → Response String

-- `_folder_id`, the caches, `_convergence_file_id`, the local files that were written, and the
-- requests sent, the last one first
pub record Session : Type 0 where
  pub root : String
  pub caches : Caches
  pub convergence_file_id : Option String
  pub written : Dict String
  pub sent : List Call

abbrev pub Client : Type 0 → Type 0
Client A = Session → Session × Executed A

-- an exception of a part is one of the whole
abbrev pub and_then : {A B : Type 0} → Session × Executed A → (A → Client B) → Session × Executed B
and_then (s, returned a) f = f a s
and_then (s, file_missing id) f = (s, file_missing id)
and_then (s, token_gone) f = (s, token_gone)
and_then (s, passed_on) f = (s, passed_on)

infixl 5 ◌>>=◌ ◌>>◌
abbrev pub ◌>>=◌ : {A B : Type 0} → Client A → (A → Client B) → Client B
◌>>=◌ m f s = and_then (m s) f

abbrev pub ◌>>◌ : {A B : Type 0} → Client A → Client B → Client B
m >> k = m >>= λ _. k

abbrev pub pure : {A : Type 0} → A → Client A
pure a s = (s, returned a)

-- the state of the session, and a change of it
abbrev pub session : Client Session
session s = (s, returned s)

abbrev pub modify : (Session → Session) → Client (Unit {0})
modify f s = (f s, returned tt)

-- the end of `_execute_with_retry`
unfoldable pub ending : {A : Type 0} → Option (Executed A × List ℕ) → Executed A
ending none = passed_on
ending (some (e, delays)) = e

-- a request by `_execute_with_retry`
unfoldable pub request_with_retry :
    {A : Type 0} → Option String → Call → (List Call → ℕ → Response A) → Client A
unfolding ending execute_with_retry
request_with_retry not_found call respond s =
    (record s { sent = call ∷ s.sent }, ending (execute_with_retry not_found (respond s.sent)))

-- the end of a bare `execute()`
unfoldable pub bare_ending : {A : Type 0} → Response A → Executed A
bare_ending (answered a) = returned a
bare_ending (http_status status) = passed_on
bare_ending no_network = passed_on

-- a request by a bare `execute()`
unfoldable pub request_once : {A : Type 0} → Call → (List Call → ℕ → Response A) → Client A
unfolding bare_ending
request_once call respond s = (record s { sent = call ∷ s.sent }, bare_ending (respond s.sent 0))

module _ (service : Service) where
  -- `files().list`: the ids of the files
  unfoldable pub list_ids : String → Client (List String)
  unfolding request_with_retry
  list_ids query = request_with_retry none (list_files query) (λ sent. service.on_list sent query)

  unfoldable pub create : Body → Client Stored
  unfolding request_with_retry
  create body = request_with_retry none (create_file body) (λ sent. service.on_create sent body)

  unfoldable pub update_with : Option String → String → Body → Client Stored
  unfolding request_with_retry
  update_with not_found id body =
      request_with_retry not_found (update_file id body) (λ sent. service.on_update sent id body)

  unfoldable pub get : Option String → String → Client Stored
  unfolding request_with_retry
  get not_found id = request_with_retry not_found (get_file id) (λ sent. service.on_get sent id)

  unfoldable pub read_media : Option String → String → Client String
  unfolding request_with_retry
  read_media not_found id =
      request_with_retry not_found (get_media id) (λ sent. service.on_media sent id)
