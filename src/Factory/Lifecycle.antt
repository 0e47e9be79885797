-- ===== src/Factory/Lifecycle.antt =====
-- What every history of an asset class keeps: the order of its versions, and a version once finalized.
use asseto_solana_programs.Prelude.{
  ℕ, suc, ◌≡◌, ◌≢◌, ap, sym, subst, ◌∙◌, inl, inr, true, arith, ◌==◌, update, update_ne, Bool-cases,
}
use asseto_solana_programs.Errors.{ok}
use asseto_solana_programs.Common.ProgramIds.{Pubkey}
use asseto_solana_programs.Common.State.{
  AccountInfo, empty, loaded, unreadable, data_is_empty, AssetClassVersion,
  asset_class_version_state_draft, asset_class_version_state_finalized,
}
use asseto_solana_programs.Factory.{Factory, AssetClassOwnership, AssetClassPendingOwner}
use asseto_solana_programs.Factory.Instructions.{create_asset_class, accept_asset_class_ownership}
use asseto_solana_programs.Factory.Versions.{
  World, Step, accept, init, enable, disable, finalize, Steps, stay, more, Start, created, Slot,
  IsOrdered, update_at, init_facts, edit_facts, finalize_facts,
}

accept_keeps :
    (f : Factory) (own : AssetClassOwnership) (pending : AssetClassPendingOwner) (signer : Pubkey)
    {own' : AssetClassOwnership} {pda : AccountInfo AssetClassPendingOwner}
    → accept_asset_class_ownership f own pending signer ≡ ok (own', pda)
    → own'.latest_version ≡ own.latest_version
unfolding accept_asset_class_ownership
accept_keeps f own pending signer h = ground arith

created_at_zero :
    (f : Factory) (manager : Pubkey) (bump : ℕ) (owner : Pubkey) {own : AssetClassOwnership}
    → create_asset_class f manager bump AccountInfo.empty owner ≡ ok own
    → own.latest_version ≡ 0
unfolding create_asset_class
created_at_zero f manager bump owner h = ground arith

next-Slot :
    (latest k : ℕ) (pda : AccountInfo AssetClassVersion)
    → k ≢ suc latest
    → Slot latest k pda
    → Slot (suc latest) k pda
next-Slot latest k empty other (inl z) = inl z
next-Slot latest k empty other (inr above) = inr (omega (arith, above, other))
next-Slot latest k (loaded v) other (n, positive, inl (below, s)) =
    (n, positive, inl (omega (arith, below), s))
next-Slot latest k (loaded v) other (n, positive, inr (e, s)) = absurd (other e)
next-Slot latest k (unreadable e) other h = absurd h

edited-Slot :
    (latest k : ℕ) (v v' : AssetClassVersion)
    → v'.version ≡ v.version
    → v'.state ≡ v.state
    → Slot latest k (loaded v)
    → Slot latest k (loaded v')
edited-Slot latest k v v' n s (m, positive, inl (below, e)) = (n ∙ m, positive, inl (below, s ∙ e))
edited-Slot latest k v v' n s (m, positive, inr (at, e)) = (n ∙ m, positive, inr (at, s ∙ e))

untouched :
    (versions : ℕ → AccountInfo AssetClassVersion) (version k : ℕ) (u : AssetClassVersion)
    (pda : AccountInfo AssetClassVersion)
    → versions k ≡ pda
    → version ≢ k
    → update versions version (loaded u) k ≡ pda
untouched versions version k u pda here other =
    update_ne versions version k (loaded u) (λ e. other (sym e)) ∙ here

not_free :
    (versions : ℕ → AccountInfo AssetClassVersion) (k : ℕ) (v : AssetClassVersion)
    → versions k ≡ loaded v
    → data_is_empty (versions k) ≡ true
    → ⊥
not_free versions k v here free = ground (arith, here, free)

loaded_inj : {u v : AssetClassVersion} → loaded u ≡ loaded v → u ≡ v
loaded_inj h = cc

-- A draft and a finalized version are not at one address.
not_draft :
    (versions : ℕ → AccountInfo AssetClassVersion) (version k : ℕ) (u v : AssetClassVersion)
    → version ≡ k
    → versions version ≡ loaded u
    → versions k ≡ loaded v
    → u.state ≡ asset_class_version_state_draft
    → v.state ≡ asset_class_version_state_finalized
    → ⊥
not_draft versions version k u v e at here draft final =
    let same : u ≡ v = loaded_inj (sym at ∙ ap versions e ∙ here) in
    let states = ap (λ x. x.state) same in omega (arith, sym draft ∙ states ∙ final)

module _ (config_id : ℕ) where
  step-IsOrdered : {w w' : World} → Step config_id w w' → IsOrdered w → IsOrdered w'
  step-IsOrdered (accept f w pending signer h) ordered k =
      subst (λ n. Slot n k (w.versions k)) (sym (accept_keeps f w.ownership pending signer h))
        (ordered k)
  step-IsOrdered (init f w owner bump version {v} h) ordered k =
      let (_, next, same, draft) =
        init_facts f w.ownership owner bump config_id version (w.versions version) h in
      update_at w.versions w.ownership.latest_version version k v
        (same, omega (arith, next), inr (next, draft)) (ordered k)
  step-IsOrdered (enable f w owner version v fs {v'} at h) ordered k =
      let (_, n, s) = edit_facts f w.ownership owner v fs (inl h) in
      let slot = subst (Slot w.ownership.latest_version version) at (ordered version) in
      update_at w.versions w.ownership.latest_version version k v'
        (edited-Slot w.ownership.latest_version version v v' n s slot) (ordered k)
  step-IsOrdered (disable f w owner version v fs {v'} at h) ordered k =
      let (_, n, s) = edit_facts f w.ownership owner v fs (inr h) in
      let slot = subst (Slot w.ownership.latest_version version) at (ordered version) in
      update_at w.versions w.ownership.latest_version version k v'
        (edited-Slot w.ownership.latest_version version v v' n s slot) (ordered k)
  step-IsOrdered (finalize f w owner version v {ownership'} {v'} at h) ordered k =
      let (draft, next, latest, same, final) = finalize_facts f w.ownership owner v h in
      let (number, positive, _) =
        subst (Slot w.ownership.latest_version version) at (ordered version) in
      let new : Slot (suc w.ownership.latest_version) version (loaded v') =
        (same ∙ number, positive, inl (omega (arith, next, number), final)) in
      subst (λ n. Slot n k (update w.versions version (loaded v') k)) (sym latest)
        (elim (Bool-cases (version == k)) [
          | inl here ↦
              let at_k : version ≡ k = ground (arith, here) in
              rw here (subst (λ n. Slot (suc w.ownership.latest_version) n (loaded v')) at_k new)
          | inr other ↦ rw other (
              next-Slot w.ownership.latest_version k (w.versions k)
                (λ e. ground (arith, other, e, next, number)) (ordered k))
        ])

  IsOrdered-Steps : {w w' : World} → Steps config_id w w' → IsOrdered w → IsOrdered w'
  IsOrdered-Steps stay ordered = ordered
  IsOrdered-Steps (more s rest) ordered = IsOrdered-Steps rest (step-IsOrdered s ordered)

  -- Whatever happens to a class after its creation, its versions 1 to the latest are there and
  -- finalized, only the one after can be a draft, no other exists, and each records its own number.
  pub Steps-IsOrdered : {w w' : World} → Start w → Steps config_id w w' → IsOrdered w'
  Steps-IsOrdered (created f manager bump owner h) steps = IsOrdered-Steps steps (λ k.
      elim (Bool-cases (k == 0)) [
        | inl z ↦ inl (ground (arith, z))
        | inr nz ↦ inr (ground (arith, nz, created_at_zero f manager bump owner h))
      ])

  step_keeps :
      {w w' : World} (k : ℕ) (v : AssetClassVersion)
      → w.versions k ≡ loaded v
      → v.state ≡ asset_class_version_state_finalized
      → Step config_id w w'
      → w'.versions k ≡ loaded v
  step_keeps k v here final (accept f w pending signer h) = here
  step_keeps k v here final (init f w owner bump version {v = u} h) =
      let (free, _, _, _) =
        init_facts f w.ownership owner bump config_id version (w.versions version) h in
      untouched w.versions version k u (loaded v) here (λ e.
        not_free w.versions k v here (subst (λ n. data_is_empty (w.versions n) ≡ true) e free))
  step_keeps k v here final (enable f w owner version u fs {v' = u'} at h) =
      untouched w.versions version k u' (loaded v) here (λ e.
        not_draft w.versions version k u v e at here (edit_facts f w.ownership owner u fs (inl h)).0
          final)
  step_keeps k v here final (disable f w owner version u fs {v' = u'} at h) =
      untouched w.versions version k u' (loaded v) here (λ e.
        not_draft w.versions version k u v e at here (edit_facts f w.ownership owner u fs (inr h)).0
          final)
  step_keeps k v here final (finalize f w owner version u {v' = u'} at h) =
      untouched w.versions version k u' (loaded v) here (λ e.
        not_draft w.versions version k u v e at here (finalize_facts f w.ownership owner u h).0
          final)

  -- A finalized version never changes again, whatever transactions follow: what an asset of the class
  -- supports is fixed.
  pub Steps-finalized :
      {w w' : World} (k : ℕ) (v : AssetClassVersion)
      → w.versions k ≡ loaded v
      → v.state ≡ asset_class_version_state_finalized
      → Steps config_id w w'
      → w'.versions k ≡ loaded v
  Steps-finalized k v at final stay = at
  Steps-finalized k v at final (more s rest) =
      Steps-finalized k v (step_keeps k v at final s) final rest
