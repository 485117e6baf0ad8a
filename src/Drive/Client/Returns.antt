-- ===== src/Drive/Client/Returns.antt =====
-- What a method of src/drive_client.py has done when it returns.
use obsidian_sync.Base.{ℕ, String, ◌≡◌, refl, sym, ap, subst, ◌∙◌, Option, List, ◌∷◌, length}
use obsidian_sync.Drive.Retry.{
  Response, answered, Executed, returned, file_missing, token_gone, passed_on,
}
use obsidian_sync.Drive.Retry.Budget.{Explains, execute_with_retry-Ends}
use obsidian_sync.Drive.Client.{Session, Client, Call, and_then, request_with_retry, ending}

-- both parts of a bind have returned
pub and_then-returned :
    {A B : Type 0} (r : Session × Executed A) (f : A → Client B) (s' : Session) (b : B)
    → and_then r f ≡ (s', returned b)
    → (s : Session) × (a : A) × (r ≡ (s, returned a)) × (f a s ≡ (s', returned b))
and_then-returned (s, returned a) f s' b h = (s, a, refl, h)
and_then-returned (s, file_missing id) f s' b h = absurd (cc h)
and_then-returned (s, token_gone) f s' b h = absurd (cc h)
and_then-returned (s, passed_on) f s' b h = absurd (cc h)

-- a request that returns was answered
pub request_with_retry-answered :
    {A : Type 0} (not_found : Option String) (call : Call) (respond : List Call → ℕ → Response A)
    (s s' : Session) (a : A)
    → request_with_retry not_found call respond s ≡ (s', returned a)
    → (s' ≡ record s { sent = call ∷ s.sent }) × (n : ℕ) × (respond s.sent n ≡ answered a)
unfolding request_with_retry ending
request_with_retry-answered {A} not_found call respond s s' a h =
    let (end, waits, e, few, short, why) = execute_with_retry-Ends A not_found (respond s.sent) in
    let same : end ≡ returned a =
      ap (λ (o : Option (Executed A × List ℕ)). ending o) (sym e)
      ∙ ap (λ (r : Session × Executed A). r.1) h in
    (
      sym (ap (λ (r : Session × Executed A). r.0) h),
      length waits,
      subst (λ (x : Executed A). Explains A not_found (respond s.sent (length waits)) x) same why,
    )
