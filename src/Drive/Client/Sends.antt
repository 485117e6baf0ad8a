-- ===== src/Drive/Client/Sends.antt =====
-- Which requests a method of src/drive_client.py sends.
use obsidian_sync.Base.{String, Bool, true, ◌≡◌, refl, ◌∙◌, Option, List, ◌∷◌, ℕ}
use obsidian_sync.Drive.Retry.{Response, Executed, returned, file_missing, token_gone, passed_on}
use obsidian_sync.Drive.Client.{Session, Client, Call, and_then, request_with_retry}

module _ (allowed : Call → Bool) where
  -- the later session has sent only allowed requests since the earlier one
  pub data Sends (s : Session) : Session → Type 0 where
    no_more : (t : Session) → t.sent ≡ s.sent → Sends s t
    one_more :
        (t u : Session) (call : Call)
        → Sends s t
        → allowed call ≡ true
        → u.sent ≡ call ∷ t.sent
        → Sends s u

  pub Sends-trans : (s t u : Session) → Sends s t → Sends t u → Sends s u
  Sends-trans s t _ first (no_more u e) = again first u e
    where
      again : {t : Session} → Sends s t → (u : Session) → u.sent ≡ t.sent → Sends s u
      again (no_more t e') u e = no_more u (e ∙ e')
      again (one_more t v call f ok e') u e = one_more t u call f ok (e ∙ e')
  Sends-trans s t _ first (one_more v u call rest ok e) =
      one_more v u call (Sends-trans s t v first rest) ok e

  pub Sends-and_then :
      {A B : Type 0} (s : Session) (r : Session × Executed A) (f : A → Client B)
      → Sends s r.0
      → ((a : A) (t : Session) → Sends t (f a t).0)
      → Sends s (and_then r f).0
  Sends-and_then s (t, returned a) f first later = Sends-trans s t (f a t).0 first (later a t)
  Sends-and_then s (t, file_missing id) f first later = first
  Sends-and_then s (t, token_gone) f first later = first
  Sends-and_then s (t, passed_on) f first later = first

  pub request_with_retry-Sends :
      {A : Type 0} (not_found : Option String) (call : Call) (respond : List Call → ℕ → Response A)
      (s : Session)
      → allowed call ≡ true
      → Sends s (request_with_retry not_found call respond s).0
  unfolding request_with_retry
  request_with_retry-Sends not_found call respond s ok =
      one_more s (record s { sent = call ∷ s.sent }) call (no_more s refl) ok refl
