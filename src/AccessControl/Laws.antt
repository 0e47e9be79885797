-- ===== src/AccessControl/Laws.antt =====
-- Which roles an account has after a grant or a revocation, as `require_role` sees it.
use asseto_solana_programs.Prelude.{
  ℕ, ◌*◌, ◌<◌, ◌≡◌, refl, ap, sym, ◌∙◌, ◌↔◌, ◌⊎◌, inl, inr, Bool, true, false, not, ◌&&◌, ◌||◌,
  Option, none, some, List, [], ◌∷◌, arith, Bytes, length,
}
use asseto_solana_programs.Errors.{ok, >>=-eq-ok, >>-eq-ok, ok_inj}
use asseto_solana_programs.Common.Bitmask.{set_bits, clear_bits, is_set}
use asseto_solana_programs.Common.Bitmask.Contents.{
  IsMask, holds, is_set-holds, accepted, first_past, contains, set_bits-Loop, clear_bits-Loop,
}
use asseto_solana_programs.Common.State.{AccountInfo, Roles}
use asseto_solana_programs.Common.Guards.{AssetAccounts, require_authorized, require_role}
use asseto_solana_programs.Common.Roles.{role_admin}
use asseto_solana_programs.Common.Functionalities.{
  access_control_grant_roles, access_control_revoke_roles,
}
use asseto_solana_programs.AccessControl.{mask_of, load_or_init, grant_roles, revoke_roles}

-- The account has the role: the check of every other program lets it pass.
abbrev pub HasRole : Roles → ℕ → Type 0
HasRole roles role = require_role roles role ≡ ok tt

role_inside : (roles : Roles) (q : ℕ) → HasRole roles q → q < length roles.mask * 8
unfolding require_role is_set
role_inside roles q h = ground arith

pub HasRole-iff :
    (roles : Roles) (q : ℕ)
    → HasRole roles q ↔ ((q < length roles.mask * 8) × (holds roles.mask q ≡ true))
unfolding require_role
HasRole-iff roles q = (
  (λ h.
      let inside = role_inside roles q h in
      (inside, ground (arith, is_set-holds roles.mask q inside, h))),
  λ (inside, h). ground (arith, is_set-holds roles.mask q inside, h),
)

accepted-all : (n : ℕ) (ps : List ℕ) → first_past n ps ≡ none → accepted n ps ≡ ps
accepted-all n [] h = refl
accepted-all n (p ∷ ps) h = ground (arith, accepted-all n ps)

listed_inside : (n q : ℕ) (ps : List ℕ) → first_past n ps ≡ none → contains q ps ≡ true → q < n * 8
listed_inside n q [] h c = cc
listed_inside n q (p ∷ ps) h c = ground (arith, listed_inside n q ps)

mask_of_ok :
    (r : Bytes × Option ℕ) {mask : Bytes} → mask_of r ≡ ok mask → (r.0 ≡ mask) × (r.1 ≡ none)
unfolding mask_of
mask_of_ok (m, none) h = (ground arith, refl)
mask_of_ok (m, some p) h = cc

or_split : (b c : Bool) → (b || c) ≡ true → (b ≡ true) ⊎ (c ≡ true)
or_split true c h = inl refl
or_split false c h = inr h

and_split : (b c : Bool) → (not b && c) ≡ true → (b ≡ false) × (c ≡ true)
and_split true c h = cc
and_split false c h = (refl, h)

-- The mask after a loop that met no error, role by role.
pub set_roles :
    (before after : Roles) (listed : List ℕ)
    → IsMask before.mask
    → mask_of (set_bits before.mask listed) ≡ ok after.mask
    → (q : ℕ) → HasRole after q ↔ ((contains q listed ≡ true) ⊎ HasRole before q)
set_roles before after listed valid h q =
    let loop = set_bits-Loop before.mask listed valid in
    let (e, clean) = mask_of_ok (set_bits before.mask listed) h in
    let fits = sym loop.error ∙ clean in
    let all = accepted-all (length before.mask) listed fits in
    let len : length after.mask ≡ length before.mask = ap length (sym e) ∙ loop.same_length in
    let bits : holds after.mask q ≡ (contains q listed || holds before.mask q) =
      ap (λ m. holds m q) (sym e)
      ∙ loop.bits q
      ∙ ap (λ ps. contains q ps || holds before.mask q) all in
    (
      (λ has.
          let (inside, set) = (HasRole-iff after q).0 has in
          elim (or_split (contains q listed) (holds before.mask q) (sym bits ∙ set)) [
            | inl new ↦ inl new
            | inr old ↦ inr ((HasRole-iff before q).1 (omega (arith, inside, len), old))
          ]),
      λ c. elim c [
        | inl new ↦
            let inside = listed_inside (length before.mask) q listed fits new in
            (HasRole-iff after q).1
              (omega (arith, inside, len), bits ∙ ap (λ b. b || holds before.mask q) new)
        | inr old ↦
            let (inside, set) = (HasRole-iff before q).0 old in
            (HasRole-iff after q).1 (omega (arith, inside, len), ground (arith, bits, set))
      ],
    )

clear_roles :
    (before after : Roles) (listed : List ℕ)
    → IsMask before.mask
    → mask_of (clear_bits before.mask listed) ≡ ok after.mask
    → (q : ℕ) → HasRole after q ↔ ((contains q listed ≡ false) × HasRole before q)
clear_roles before after listed valid h q =
    let loop = clear_bits-Loop before.mask listed valid in
    let (e, clean) = mask_of_ok (clear_bits before.mask listed) h in
    let all = accepted-all (length before.mask) listed (sym loop.error ∙ clean) in
    let len : length after.mask ≡ length before.mask = ap length (sym e) ∙ loop.same_length in
    let bits : holds after.mask q ≡ (not (contains q listed) && holds before.mask q) =
      ap (λ m. holds m q) (sym e)
      ∙ loop.bits q
      ∙ ap (λ ps. not (contains q ps) && holds before.mask q) all in
    (
      (λ has.
          let (inside, set) = (HasRole-iff after q).0 has in
          let (off, old) = and_split (contains q listed) (holds before.mask q) (sym bits ∙ set) in
          (off, (HasRole-iff before q).1 (omega (arith, inside, len), old))),
      λ (off, old).
          let (inside, set) = (HasRole-iff before q).0 old in
          (HasRole-iff after q).1 (omega (arith, inside, len), ground (arith, bits, set, off)),
    )

module _ (a : AssetAccounts) where
  -- A grant that succeeds is an admin's, and leaves an account with the roles that it had and those that
  -- are listed.
  pub grant_roles_grants :
      (bump : ℕ) (roles_pda : AccountInfo Roles) (listed : List ℕ) (before : Roles) (q : ℕ)
      {after : Roles}
      → load_or_init bump roles_pda ≡ ok before
      → IsMask before.mask
      → grant_roles a bump roles_pda listed ≡ ok after
      → HasRole a.authority_roles_pda role_admin
        × (HasRole after q ↔ ((contains q listed ≡ true) ⊎ HasRole before q))
  unfolding grant_roles require_authorized
  grant_roles_grants bump roles_pda listed before q {after} e valid h =
      let (b, eb, h1) = >>=-eq-ok (load_or_init bump roles_pda) _ {b = after} h in
      let (auth, h2) =
        >>-eq-ok (require_authorized a role_admin access_control_grant_roles) _ {b = after} h1 in
      let (mask, em, written) = >>=-eq-ok (mask_of (set_bits b.mask listed)) _ {b = after} h2 in
      let same : b ≡ before = ok_inj (sym eb ∙ e) in
      let kept : after.mask ≡ mask = ap (λ r. r.mask) (sym (ok_inj written)) in
      (
        ground (arith, auth),
        set_roles before after listed valid
            (ap (λ r. mask_of (set_bits r.mask listed)) (sym same) ∙ em ∙ ap ok (sym kept)) q,
      )

  -- A revocation that succeeds is an admin's, and leaves an account with the roles that it had and that
  -- are not listed.
  pub revoke_roles_revokes :
      (before : Roles) (listed : List ℕ) (q : ℕ) {after : Roles}
      → IsMask before.mask
      → revoke_roles a before listed ≡ ok after
      → HasRole a.authority_roles_pda role_admin
        × (HasRole after q ↔ ((contains q listed ≡ false) × HasRole before q))
  unfolding revoke_roles require_authorized
  revoke_roles_revokes before listed q {after} valid h =
      let (auth, h1) =
        >>-eq-ok (require_authorized a role_admin access_control_revoke_roles) _ {b = after} h in
      let (mask, em, written) =
        >>=-eq-ok (mask_of (clear_bits before.mask listed)) _ {b = after} h1 in
      let kept : after.mask ≡ mask = ap (λ r. r.mask) (sym (ok_inj written)) in
      (ground (arith, auth), clear_roles before after listed valid (em ∙ ap ok (sym kept)) q)
