-- ===== src/Pause/Tests.antt =====
-- An asset that is paused, resumed and deactivated.
use asseto_solana_programs.Prelude.{◌≡◌, refl, ap, Bool, true, false, inl}
use asseto_solana_programs.Errors.{common, deactivated, mint_paused, ok, err}
use asseto_solana_programs.Common.Bitmask.{locate, is_set}
use asseto_solana_programs.Common.State.{AccountInfo, loaded}
use asseto_solana_programs.Common.Guards.{
  require_role, require_not_paused, require_active, require_functionality, is_functionality_enabled,
}
use asseto_solana_programs.Common.Token.{TokenProgram}
use asseto_solana_programs.Common.Examples.{runtime, version, every_role, mint_state, token_account}
use asseto_solana_programs.Pause.{Operator, pausable_authority, pause, unpause, deactivate}
use asseto_solana_programs.Pause.Lifecycle.{
  PauseLaws, Asset, stay, more, by_pause, by_unpause, by_deactivate, IsLive, KeepsMarker,
  Steps-IsLive,
}

-- A ledger that is the flag of one mint.
abbrev flag_program : TokenProgram
flag_program = record {
  Ledger = Bool;
  mint_state = λ mint flag. ok (record (mint_state 50) { paused = ok flag });
  token_account = λ key flag. ok (token_account 50);
  transfer_checked = λ from mint to authority amount decimals flag. ok flag;
  mint_to = λ mint to authority amount flag. ok flag;
  permissioned_burn = λ account mint burner authority amount flag. ok flag;
  pause = λ mint authority flag. ok true;
  resume = λ mint authority flag. ok false;
}

set_to : (b c : Bool) → ok b ≡ ok c → c ≡ b
set_to b c h = cc

laws : PauseLaws flag_program
laws = record {
  pause_pauses = λ mint authority l {l'} h.
      (record (mint_state 50) { paused = ok l' }, refl, ap ok (set_to true l' h));
  resume_resumes = λ mint authority l {l'} h.
      (record (mint_state 50) { paused = ok l' }, refl, ap ok (set_to false l' h));
}

abbrev operator : Operator
operator = record { authority_roles_pda = every_role; asset_class_version_pda = version }

abbrev asset : Bool → Asset runtime flag_program 7
asset flag = record { ledger = flag; deactivate_pda = AccountInfo.empty }

abbrev ended : Asset runtime flag_program 7
ended = record { ledger = false; deactivate_pda = loaded (record { bump = 3 }) }

paused : pause runtime flag_program 7 operator AccountInfo.empty false ≡ ok true
unfolding pause pausable_authority require_role require_active require_functionality
    is_functionality_enabled is_set locate
paused = refl

resumed : unpause runtime flag_program 7 operator AccountInfo.empty true ≡ ok false
unfolding unpause pausable_authority require_role require_active require_functionality
    is_functionality_enabled is_set locate
resumed = refl

closed :
    deactivate runtime flag_program 7 operator 3 AccountInfo.empty false ≡ ok (record { bump = 3 })
unfolding deactivate require_role require_not_paused require_functionality is_functionality_enabled
    is_set locate
closed = refl

not_while_paused :
    deactivate runtime flag_program 7 operator 3 AccountInfo.empty true ≡ err (common mint_paused)
unfolding deactivate require_role require_not_paused require_functionality is_functionality_enabled
    is_set locate
not_while_paused = refl

no_pause_after :
    pause runtime flag_program 7 operator ended.deactivate_pda false ≡ err (common deactivated)
unfolding pause require_role require_active is_set locate
no_pause_after = refl

Steps-IsLive_example :
    IsLive runtime flag_program 7 ended × KeepsMarker runtime flag_program 7 (asset false) ended
Steps-IsLive_example =
    Steps-IsLive runtime flag_program 7 laws {w = asset false} {w' = ended}
      (more (by_pause operator (asset false) paused) (
        more (by_unpause operator (asset true) resumed)
          (more (by_deactivate operator 3 (asset false) closed) stay)))
      (inl (refl, (false, (record (mint_state 50) { paused = ok false }, refl, refl))))
