-- ===== src/RequestContext/Actor/Trust.antt =====
-- Whose process the actor is.
use bb_auth.Prelude.{
  ℕ, zero, suc, ◌≡◌, refl, ◌⊎◌, inl, inr, Bool, true, false, Bool-cases, Option, some, Option-cases,
  String, List, arith, string_eq, ◌==◌, if◌then◌else◌, not, ◌&&◌, ◌∙◌, ap, ap,
}
use bb_auth.Prelude.Int.{ℤ, pos, ltb_ℤ, eqb_ℤ, eq_of_parts}
use bb_auth.Qt.{Texts}
use bb_auth.RequestContext.{ProcInfo}
use bb_auth.RequestContext.Desktop.{DesktopInfo, is_valid, no_desktop}
use bb_auth.RequestContext.Actor.{
  ActorInfo, new_actor, is_bridge, is_foreign, as_candidate, desktop_of, matched, climb, max_hops,
  named, with_fallbacks, with_confidence, weak_confidence, resolve_requestor_from_subject,
}

-- The name of a program without a desktop entry.
abbrev pub program_name : Texts → ProcInfo → String
program_name t p =
    if p.exe == "" then (if p.name == "" then "Unknown" else p.name) else t.file_name p.exe

-- The processes that are read on the way up from a process id.
pub data IsAncestor (reader : ℤ → Option ProcInfo) : ℤ → ProcInfo → Type 0 where
  itself : {pid : ℤ} {info : ProcInfo} → reader pid ≡ some info → IsAncestor reader pid info
  above :
      {pid : ℤ} (info : ProcInfo) {p : ProcInfo}
      → reader pid ≡ some info
      → IsAncestor reader info.ppid p
      → IsAncestor reader pid p

module _ (t : Texts) (index : List DesktopInfo) (uid : ℤ) where
  -- A process of the user, or any if the agent is root's, or one of pkexec, sudo and doas.
  abbrev pub IsTrusted : ProcInfo → Type 0
  IsTrusted p = (p.uid ≡ uid) ⊎ ((uid ≡ pos 0) ⊎ (is_bridge t index uid p ≡ true))

  not_foreign : (p : ProcInfo) → is_foreign t index uid p ≡ false → IsTrusted p
  not_foreign p h = ground (arith, eq_of_parts p.uid uid, eq_of_parts uid (pos 0))

  mine : (p : ProcInfo) → eqb_ℤ p.uid uid ≡ true → p.uid ≡ uid
  mine p h = ground (arith, eq_of_parts p.uid uid)

  and_right : (c d : Bool) → (c && d) ≡ true → d ≡ true
  and_right true d h = h
  and_right false d h = cc

  if-desktop :
      (c : Bool) (a : ActorInfo) (info : ProcInfo)
      → (if c then record a { proc = info } else a).desktop ≡ a.desktop
  if-desktop true a info = refl
  if-desktop false a info = refl

  module _ (reader : ℤ → Option ProcInfo) where
    -- What the walk up from `pid` makes of the actor `a`.
    pub record IsWalk (pid : ℤ) (a b : ActorInfo) : Type 0 where
      pub origin : (b.proc ≡ a.proc) ⊎ (IsAncestor reader pid b.proc × IsTrusted b.proc)
      pub entry :
          (b.desktop ≡ a.desktop)
          ⊎ ((b.desktop ≡ desktop_of t index uid b.proc) × (is_valid b.desktop ≡ true))

    IsWalk-refl : (pid : ℤ) (a : ActorInfo) → IsWalk pid a a
    IsWalk-refl pid a = record { origin = inl refl; entry = inl refl }

    if-IsWalk :
        (pid : ℤ) (a : ActorInfo) (c : Bool) (x y : ActorInfo)
        → (c ≡ true → IsWalk pid a x)
        → (c ≡ false → IsWalk pid a y)
        → IsWalk pid a (if c then x else y)
    if-IsWalk pid a true x y h k = h refl
    if-IsWalk pid a false x y h k = k refl

    IsWalk-candidate :
        (pid : ℤ) (a : ActorInfo) (info : ProcInfo)
        → reader pid ≡ some info
        → IsWalk pid a (as_candidate t index uid a info)
    IsWalk-candidate pid a info e =
        if-IsWalk pid a (not (is_bridge t index uid info) && eqb_ℤ info.uid uid)
          (record a { proc = info }) a
          (λ c. record {
            origin = inr (itself e, inl (mine info (and_right _ _ c)));
            entry = inl refl;
          })
          (λ c. IsWalk-refl pid a)

    IsWalk-matched :
        (pid : ℤ) (a : ActorInfo) (info : ProcInfo)
        → reader pid ≡ some info
        → is_foreign t index uid info ≡ false
        → is_valid (desktop_of t index uid info) ≡ true
        → IsWalk pid a (matched t index uid a info)
    IsWalk-matched pid a info e f v = record {
      origin = inr (itself e, not_foreign info f);
      entry = inr (refl, v);
    }

    origins :
        (pid : ℤ) (a b c : ActorInfo) (info : ProcInfo)
        → reader pid ≡ some info
        → (b.proc ≡ a.proc) ⊎ (IsAncestor reader pid b.proc × IsTrusted b.proc)
        → (c.proc ≡ b.proc) ⊎ (IsAncestor reader info.ppid c.proc × IsTrusted c.proc)
        → (c.proc ≡ a.proc) ⊎ (IsAncestor reader pid c.proc × IsTrusted c.proc)
    origins pid a b c info e x (inr (chain, u)) = inr (above info e chain, u)
    origins pid a b c info e (inl x) (inl y) = inl (y ∙ x)
    origins pid a b c info e (inr x) (inl y) = inr (rw y x)

    entries :
        (a b c : ActorInfo)
        → b.desktop ≡ a.desktop
        → (c.desktop ≡ b.desktop)
          ⊎ ((c.desktop ≡ desktop_of t index uid c.proc) × (is_valid c.desktop ≡ true))
        → (c.desktop ≡ a.desktop)
          ⊎ ((c.desktop ≡ desktop_of t index uid c.proc) × (is_valid c.desktop ≡ true))
    entries a b c e (inl x) = inl (x ∙ e)
    entries a b c e (inr x) = inr x

    candidate-desktop :
        (a : ActorInfo) (info : ProcInfo) → (as_candidate t index uid a info).desktop ≡ a.desktop
    candidate-desktop a info =
        if-desktop (not (is_bridge t index uid info) && eqb_ℤ info.uid uid) a info

    climb-IsWalk :
        (hops : ℕ) (pid : ℤ) (a : ActorInfo) → IsWalk pid a (climb t index uid reader hops pid a)
    unfolding climb
    climb-IsWalk zero pid a = IsWalk-refl pid a
    climb-IsWalk (suc hops) pid a = elim (Bool-cases (ltb_ℤ (pos 1) pid)) [
      | inr e ↦ rw (e, climb) (IsWalk-refl pid a)
      | inl e ↦ elim (Option-cases (reader pid)) [
        | inl n ↦ rw (e, n, climb) (IsWalk-refl pid a)
        | inr (info, s) ↦
            let b = as_candidate t index uid a info in
            let hb = IsWalk-candidate pid a info s in
            let c = climb t index uid reader hops info.ppid b in
            let hc = climb-IsWalk hops info.ppid b in
            let up : IsWalk pid a c = record {
              origin = origins pid a b c info s hb.origin hc.origin;
              entry = entries a b c (candidate-desktop a info) hc.entry;
            } in
            rw (e, s, climb)
              (if-IsWalk pid a (is_foreign t index uid info) a _ (λ f. IsWalk-refl pid a)
                (λ f.
                  if-IsWalk pid a (is_valid (desktop_of t index uid info))
                    (matched t index uid a info) _ (λ v. IsWalk-matched pid a info s f v)
                    (λ v. if-IsWalk pid a _ b c (λ x. hb) (λ x. up))))
      ]
    ]

  -- The name and the key of the display: of the desktop entry if there is one, else of the process.
  abbrev pub IsNamed : ActorInfo → Type 0
  IsNamed a =
      ((is_valid a.desktop ≡ true)
        × (a.display_name ≡ a.desktop.name)
        × (a.fallback_key ≡ a.desktop.desktop_id))
      ⊎ ((is_valid a.desktop ≡ false)
          × (a.display_name ≡ program_name t a.proc)
          × (a.fallback_key ≡ t.to_lower a.display_name)
          × (a.confidence ≡ weak_confidence a.proc))

  named-IsNamed : (a : ActorInfo) → IsNamed (with_fallbacks t (named t (with_confidence a)))
  unfolding named with_fallbacks
  named-IsNamed a = ground arith

  named-proc : (a : ActorInfo) → (with_fallbacks t (named t (with_confidence a))).proc ≡ a.proc
  unfolding named with_fallbacks
  named-proc a = ground arith

  named-desktop :
      (a : ActorInfo) → (with_fallbacks t (named t (with_confidence a))).desktop ≡ a.desktop
  unfolding named with_fallbacks
  named-desktop a = ground arith

  pub record IsAttributed (reader : ℤ → Option ProcInfo) (subject : ProcInfo) (a : ActorInfo)
      : Type 0 where
    pub origin : (a.proc ≡ subject) ⊎ (IsAncestor reader subject.pid a.proc × IsTrusted a.proc)
    pub entry : (is_valid a.desktop ≡ false) ⊎ (a.desktop ≡ desktop_of t index uid a.proc)
    pub names : IsNamed a

  unmatched :
      (a : ActorInfo) (d : DesktopInfo)
      → (a.desktop ≡ no_desktop) ⊎ ((a.desktop ≡ d) × (is_valid a.desktop ≡ true))
      → (is_valid a.desktop ≡ false) ⊎ (a.desktop ≡ d)
  unmatched a d (inl e) = inl (ap is_valid e)
  unmatched a d (inr e) = inr e.0

  -- The process that a request is attributed to is the subject, or an ancestor of the subject that
  -- belongs to the user or is a bridge such as sudo (any ancestor, if the agent is root's). The desktop
  -- entry, if there is one, is the entry of that very process, and the display has the entry's name
  -- and key, or else the process's.
  pub resolve_requestor-IsAttributed :
      (reader : ℤ → Option ProcInfo) (subject : ProcInfo)
      → IsAttributed reader subject (resolve_requestor_from_subject t index subject uid reader)
  unfolding resolve_requestor_from_subject
  resolve_requestor-IsAttributed reader subject =
      let c = climb t index uid reader max_hops subject.pid (new_actor subject) in
      let walk = climb-IsWalk reader max_hops subject.pid (new_actor subject) in
      let p = named-proc c in
      let d = named-desktop c in
      record {
        origin = rw p walk.origin;
        entry = rw (p, d) (unmatched c (desktop_of t index uid c.proc) walk.entry);
        names = named-IsNamed c;
      }
