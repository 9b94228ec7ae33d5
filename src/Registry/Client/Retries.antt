-- ===== src/Registry/Client/Retries.antt =====
-- How often the registry's client asks the registry in one fetch, and with which token.
use chat_aiagent.Prelude.{
  ℕ, ◌+◌, ltb, ◌≡◌, refl, ◌⊎◌, inl, inr, true, ◌&&◌, Option, none, some, List, [], ◌∷◌, Text,
  is_some, arith, Bool-cases, Option-cases,
}
use chat_aiagent.Registry.Client.{
  Credentials, Client, AuthAnswer, auth_failed, no_access_token, granted, World, nonempty,
  TokenResult, token_is, auth_unavailable, auth_raised, ask, get_token, Request, is_unauthorised,
  again, after_first, with_first, fetch,
}

-- The second request repeats one that carried a token and was answered 401, with the token that the
-- auth service has granted for it.
pub record Renewed (w : World) (path : Text) (reqs : List Request) : Type 0 where
  pub old : Text
  pub new : Text
  pub expires_in : Option ℕ
  pub both : reqs ≡ (path, some old) ∷ (path, nonempty (some new)) ∷ []
  pub refused : is_unauthorised (w.first_response path (some old)) ≡ true
  pub renewed : w.second_auth ≡ granted new expires_in

abbrev pub Asked : World → Text → List Request → Type 0
Asked w path reqs =
    (reqs ≡ []) ⊎ (((t : Option Text) × (reqs ≡ (path, t) ∷ [])) ⊎ Renewed w path reqs)

get_token_asks :
    (at now : ℕ) (a : AuthAnswer) (c : Client) (k : Credentials)
    → c.credentials ≡ some k
    → get_token at now a (record c { token = none }) ≡ ask a now (record c { token = none })
unfolding get_token
get_token_asks at now a c k h = ground (arith, h)

-- The requests once the first one has been refused.
again-Asked :
    (w : World) (path t : Text) (now : ℕ) (a : AuthAnswer) (c : Client)
    → w.second_auth ≡ a
    → is_unauthorised (w.first_response path (some t)) ≡ true
    → Asked w path (again w path (path, some t) (ask a now c)).1
again-Asked w path t now auth_failed c e h = inr (inl (some t, refl))
again-Asked w path t now no_access_token c e h = inr (inl (some t, refl))
again-Asked w path t now (granted new expires_in) c e h = inr (
    inr (record {
      old = t;
      new = new;
      expires_in = expires_in;
      both = refl;
      refused = h;
      renewed = e;
    }))

after_first-Asked :
    (w : World) (path : Text) (t : Option Text) (c : Client)
    → (is_some t ≡ true → (k : Credentials) × (c.credentials ≡ some k))
    → Asked w path (after_first w path t (w.first_response path t) c).1
after_first-Asked w path none c h =
    elim (Bool-cases (is_unauthorised (w.first_response path none))) [
      | inl y ↦ rw y (inr (inl (none, refl)))
      | inr n ↦ rw n (inr (inl (none, refl)))
    ]
after_first-Asked w path (some t) c h =
    elim (Bool-cases (is_unauthorised (w.first_response path (some t)))) [
      | inl y ↦
          let (k, e) = h refl in
          rw y (
            rw (get_token_asks w.granted_at w.regranted_at w.second_auth c k e) (
              again-Asked w path t w.regranted_at w.second_auth (record c { token = none }) refl y))
      | inr n ↦ rw n (inr (inl (some t, refl)))
    ]

get_token_without :
    (at now : ℕ) (a : AuthAnswer) (c : Client)
    → c.credentials ≡ none
    → get_token at now a c ≡ (c, token_is none)
unfolding get_token
get_token_without at now a c h = ground (arith, h)

abbrev Held : Option Credentials → Client × TokenResult → Type 0
Held k got = got.0.credentials ≡ k

ask-Held : (a : AuthAnswer) (now : ℕ) (c : Client) → Held c.credentials (ask a now c)
ask-Held auth_failed now c = refl
ask-Held no_access_token now c = refl
ask-Held (granted t e) now c = refl

get_token-Held :
    (at now : ℕ) (a : AuthAnswer) (c : Client) (k : Credentials)
    → c.credentials ≡ some k
    → Held (some k) (get_token at now a c)
unfolding get_token
get_token-Held at now a c k h =
    elim (Bool-cases (is_some (nonempty c.token) && ltb (at + 30) c.token_expires_at)) [
      | inl y ↦ ground (arith, h, y)
      | inr n ↦ ground (arith, h, n, ask-Held a now c)
    ]

with_first-Asked :
    (w : World) (path : Text) (got : Client × TokenResult) (k : Credentials)
    → Held (some k) got
    → Asked w path (with_first w path got).1
with_first-Asked w path (c, token_is t) k h = after_first-Asked w path (nonempty t) c (λ y. (k, h))
with_first-Asked w path (c, auth_unavailable) k h = inl refl
with_first-Asked w path (c, auth_raised) k h = inl refl

-- A fetch asks the registry at most twice, for the same path; the second time only where the first
-- request carried a token and was answered 401, and then with the token that the auth service has
-- granted since.
pub fetch-Asked : (w : World) (path : Text) (c : Client) → Asked w path (fetch w path c).1
unfolding fetch
fetch-Asked w path c = elim (Option-cases c.credentials) [
  | inr (k, e) ↦
      with_first-Asked w path (get_token w.checked_at w.granted_at w.first_auth c) k
        (get_token-Held w.checked_at w.granted_at w.first_auth c k e)
  | inl e ↦
      rw (get_token_without w.checked_at w.granted_at w.first_auth c e)
        (after_first-Asked w path none c (λ y. absurd (ground arith)))
]
