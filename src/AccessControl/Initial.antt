-- ===== src/AccessControl/Initial.antt =====
-- The roles of an asset's first admin.
use asseto_solana_programs.Prelude.{
  ℕ, zero, suc, ◌/◌, ◌%◌, ◌^◌, bit_and, ◌≡◌, refl, ap, sym, ◌∙◌, ◌↔◌, inl, inr, Bool, true, false,
  [], ◌∷◌, arith, ◌==◌, Bytes, replicate, get_or,
}
use asseto_solana_programs.Errors.{
  external, constraint_failed, access_control, AccessControlError, ok, require, >>=-eq-ok, >>-eq-ok,
  ok_inj,
}
use asseto_solana_programs.Common.ProgramIds.{Pubkey, deploy_program_id}
use asseto_solana_programs.Common.PdaSeeds.{Runtime, temp_mint_authority_seeds, is_caller_pda}
use asseto_solana_programs.Common.Bitmask.{set_bits}
use asseto_solana_programs.Common.Bitmask.Contents.{IsMask, holds, contains}
use asseto_solana_programs.Common.State.{AccountInfo, data_is_empty, Roles, roles_bytes_mask}
use asseto_solana_programs.Common.Roles.{role_admin}
use asseto_solana_programs.AccessControl.{mask_of, fresh_roles, initialize}
use asseto_solana_programs.AccessControl.Laws.{HasRole, HasRole-iff, set_roles}

zeros-IsMask : (n : ℕ) → IsMask (replicate n 0)
zeros-IsMask zero = tt
zeros-IsMask (suc n) = (omega arith, zeros-IsMask n)

abbrev zeros : ℕ → Bytes
zeros n = replicate n 0

get_or-zeros : (n i : ℕ) → get_or (zeros n) i 0 ≡ zero
get_or-zeros zero i = refl
get_or-zeros (suc n) zero = refl
get_or-zeros (suc n) (suc i) = get_or-zeros n i

zero_div : (d : ℕ) → 0 / d ≡ zero
zero_div d = omega arith

holds-zeros : (n q : ℕ) → holds (zeros n) q ≡ false
holds-zeros n q = rw (get_or-zeros n (q / 8)) (ap (λ d. bit_and d 1 == 1) (zero_div (2 ^ (q % 8))))

fresh_has_none : (bump q : ℕ) → HasRole (fresh_roles bump) q → ⊥
fresh_has_none bump q has =
    clash (((HasRole-iff (fresh_roles bump) q).0 has).1) (holds-zeros roles_bytes_mask q)
  where
    clash : {b : Bool} → b ≡ true → b ≡ false → ⊥
    clash h k = cc

only : (q : ℕ) → (contains q (role_admin ∷ []) ≡ true) ↔ (q ≡ role_admin)
only q = (λ h. ground (arith, h), λ e. ground (arith, e))

-- The roles account that a deployment creates has the admin's role and no other.
pub initialize-HasRole :
    (rt : Runtime) (mint temp_mint_authority : Pubkey) (bump : ℕ) (pda : AccountInfo Roles)
    {roles : Roles}
    → initialize rt mint temp_mint_authority bump pda ≡ ok roles
    → (q : ℕ) → HasRole roles q ↔ (q ≡ role_admin)
unfolding initialize
initialize-HasRole rt mint temp_mint_authority bump pda {roles} h q =
    let (_, h1) =
      >>-eq-ok (require (data_is_empty pda) (external constraint_failed)) _ {b = roles} h in
    let (_, h2) =
      >>-eq-ok
        (require
          (is_caller_pda rt temp_mint_authority (temp_mint_authority_seeds mint) deploy_program_id)
          (access_control AccessControlError.unauthorized))
        _ {b = roles} h1 in
    let (mask, em, w) =
      >>=-eq-ok (mask_of (set_bits (replicate roles_bytes_mask 0) (role_admin ∷ []))) _ {b = roles}
        h2 in
    let kept : roles.mask ≡ mask = ap (λ r. r.mask) (sym (ok_inj w)) in
    let roles_set =
      set_roles (fresh_roles bump) roles (role_admin ∷ []) (zeros-IsMask roles_bytes_mask)
        (em ∙ ap ok (sym kept)) q in
    (
      λ has. elim (roles_set.0 has) [
        | inl listed ↦ (only q).0 listed
        | inr before ↦ absurd (fresh_has_none bump q before)
      ],
      λ e. roles_set.1 (inl ((only q).1 e)),
    )
