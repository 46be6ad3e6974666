-- ===== src/Fallback/Client/Agreement.antt =====
-- The client and the daemon on which provider is active.
use bb_auth.Prelude.{
  ℕ, ◌≡◌, refl, sym, ap, ◌∙◌, inl, inr, Bool, true, false, some, Option-cases, [], ◌∷◌, arith,
  eq_iff, nat_beq_iff, is_nil, ◌==◌, string_eq, nat_eq,
}
use bb_auth.Prelude.Hash.{Hash, find}
use bb_auth.Json.{Object, value, put, to_string, to_bool}
use bb_auth.Registry.{
  Registry, UiProvider, has_active_provider, active_provider_info, is_authorized,
}
use bb_auth.Agent.State.{World}
use bb_auth.Agent.Sessions.{provider_status}
use bb_auth.Fallback.Client.{FallbackClient, SocketState, set_provider_active}
use bb_auth.Fallback.Client.Messages.{handle_message}

active_provider-is_some :
    (r : Registry)
    → has_active_provider r ≡ true
    → (s : ℕ) × (q : UiProvider) × (r.active_provider ≡ some s) × (find s r.ui_providers ≡ some q)
unfolding has_active_provider
active_provider-is_some r h = elim (Option-cases r.active_provider) [
  | inl n ↦ ground (arith, h, n)
  | inr (s, e) ↦ elim (Option-cases (find s r.ui_providers)) [
    | inl n ↦ ground (arith, h, e, n)
    | inr (q, f) ↦ (s, q, e, f)
  ]
]

-- What a client reads in the status of a registry with the active provider `q`.
pub record ReadsActive (m : Object) (q : UiProvider) : Type 0 where
  pub typed : to_string (value "type" m) ≡ "ui.active"
  pub active : to_bool (value "active" m) ≡ true
  pub identified : to_string (value "id" m) ≡ q.id

active_info :
    (r : Registry) (s : ℕ) (q : UiProvider)
    → r.active_provider ≡ some s
    → find s r.ui_providers ≡ some q
    → active_provider_info r ≡ some q
unfolding active_provider_info
active_info r s q e f = ground (arith, e, f)

provider_status-ReadsActive :
    (w : World) (r : Registry) (s : ℕ) (q : UiProvider)
    → r.active_provider ≡ some s
    → find s r.ui_providers ≡ some q
    → has_active_provider r ≡ true
    → ReadsActive (provider_status w r) q
unfolding provider_status value put
provider_status-ReadsActive w r s q e f h =
    rw (active_info r s q e f, h) record { typed = refl; active = refl; identified = refl }

set_provider_active-is :
    (socket : SocketState) (active : Bool) (c : FallbackClient)
    → (set_provider_active socket active c).1.provider_active ≡ active
unfolding set_provider_active
set_provider_active-is socket active c = ground arith

-- A registered client takes the status for what it says of its own id.
handle_active-is :
    (socket : SocketState) (m : Object) (q : UiProvider) (c : FallbackClient)
    → ReadsActive m q
    → c.registered ≡ true
    → (c.provider_id == "") ≡ false
    → (handle_message socket m c).1.provider_active ≡ (q.id == c.provider_id)
unfolding handle_message
handle_active-is socket m q c reads known named =
    let told = set_provider_active-is socket (q.id == c.provider_id) c in
    rw (reads.typed, reads.active, reads.identified) (ground (arith, known, named, told))

-- An id that is no other provider's.
same-id :
    (r : Registry) (k s : ℕ) (p q : UiProvider)
    → find k r.ui_providers ≡ some p
    → find s r.ui_providers ≡ some q
    → (q.id ≡ p.id → s ≡ k)
    → (q.id == p.id) ≡ (k == s)
same-id r k s p q e f distinct = ground (arith, e, f, distinct, nat_beq_iff k s, eq_iff q.id p.id)

found-not_nil :
    (k : ℕ) (p : UiProvider) (m : Hash ℕ UiProvider) → find k m ≡ some p → is_nil m ≡ false
unfolding find
found-not_nil k p [] h = ground (arith, h)
found-not_nil k p (e ∷ m) h = refl

authorized-active :
    (r : Registry) (k s : ℕ) (p : UiProvider)
    → find k r.ui_providers ≡ some p
    → r.active_provider ≡ some s
    → is_authorized r k ≡ (k == s)
unfolding is_authorized
authorized-active r k s p e f = ground (arith, found-not_nil k p r.ui_providers e, e, f)

-- A registered client that reads the status of the daemon's registry takes itself to be the active
-- provider exactly if its socket may answer prompts: if the client's id is the one under which its
-- socket is registered, and no other socket's, and some provider is active.
pub status-Agrees :
    (w : World) (r : Registry) (k : ℕ) (p : UiProvider) (socket : SocketState) (c : FallbackClient)
    → find k r.ui_providers ≡ some p
    → ((s : ℕ) (q : UiProvider) → find s r.ui_providers ≡ some q → q.id ≡ p.id → s ≡ k)
    → has_active_provider r ≡ true
    → c.registered ≡ true
    → c.provider_id ≡ p.id
    → (c.provider_id == "") ≡ false
    → (handle_message socket (provider_status w r) c).1.provider_active ≡ is_authorized r k
status-Agrees w r k p socket c e distinct active known mine named =
    let (s, q, a, f) = active_provider-is_some r active in
    let told =
      handle_active-is socket (provider_status w r) q c
        (provider_status-ReadsActive w r s q a f active) known named in
    told
    ∙ ap (◌==◌ q.id) mine
    ∙ same-id r k s p q e f (distinct s q f)
    ∙ sym (authorized-active r k s p e a)
