-- ===== src/Factory/Tests.antt =====
-- A class whose first version is drafted and finalized.
use asseto_solana_programs.Prelude.{ℕ, ◌≡◌, refl, false, List, [], ◌∷◌, replicate, update}
use asseto_solana_programs.Errors.{ok}
use asseto_solana_programs.Common.State.{AccountInfo, empty, loaded, AssetClassVersion}
use asseto_solana_programs.Factory.{
  Factory, AssetClassOwnership, require_not_paused, verify_manager, verify_owner,
  verify_pending_owner, verify_pending_manager,
}
use asseto_solana_programs.Factory.Instructions.{
  create_asset_class, init_asset_class_version, finalize_asset_class_version,
  accept_asset_class_ownership, nominate_manager, accept_nomination,
}
use asseto_solana_programs.Factory.Versions.{
  World, init, finalize, accept, stay, more, created, IsOrdered,
}
use asseto_solana_programs.Factory.Office.{
  Office, Transaction, nominate, accept as accepts, accepting, step,
}
use asseto_solana_programs.Factory.Management.{Line, IsOwnNomination, Run, begin, next, Run-IsHeld}
use asseto_solana_programs.Factory.Lifecycle.{Steps-IsOrdered, Steps-finalized}

abbrev registry : Factory
registry = record { manager = 5; pause = false; bump = 255 }

abbrev ownership : ℕ → ℕ → AssetClassOwnership
ownership owner latest = record { owner = owner; latest_version = latest; bump = 254 }

abbrev version_in : ℕ → AssetClassVersion
version_in state = record {
  config_id = 3;
  version = 1;
  state = state;
  bump = 253;
  mask = replicate 1024 0;
}

class_created : create_asset_class registry 5 254 empty 6 ≡ ok (ownership 6 0)
unfolding create_asset_class require_not_paused verify_manager
class_created = refl

drafted : init_asset_class_version registry (ownership 6 0) 6 253 empty 3 1 ≡ ok (version_in 0)
unfolding init_asset_class_version require_not_paused verify_owner
drafted = refl

finalized :
    finalize_asset_class_version registry (ownership 6 0) 6 (version_in 0)
    ≡ ok (ownership 6 1, version_in 1)
unfolding finalize_asset_class_version require_not_paused verify_owner
finalized = refl

accepted :
    accept_asset_class_ownership registry (ownership 6 1) (record { pending_owner = 8; bump = 1 }) 8
    ≡ ok (ownership 8 1, AccountInfo.empty)
unfolding accept_asset_class_ownership require_not_paused verify_pending_owner
accepted = refl

abbrev new_class : World
new_class = record { ownership = ownership 6 0; versions = λ k. empty }

abbrev draft : World
draft = record {
  ownership = ownership 6 0;
  versions = update (λ k. empty) 1 (loaded (version_in 0));
}

abbrev final : World
final = record {
  ownership = ownership 6 1;
  versions = update (update (λ k. empty) 1 (loaded (version_in 0))) 1 (loaded (version_in 1));
}

abbrev sold : World
sold = record { ownership = ownership 8 1; versions = final.versions }

Steps-IsOrdered_example : IsOrdered final
Steps-IsOrdered_example = Steps-IsOrdered 3 (created registry 5 254 6 class_created) (
    more (init registry new_class 6 253 1 drafted)
      (more (finalize registry draft 6 1 (version_in 0) refl finalized) stay))

Steps-finalized_example : sold.versions 1 ≡ loaded (version_in 1)
Steps-finalized_example =
    Steps-finalized 3 1 (version_in 1) refl refl
      (more (accept registry final (record { pending_owner = 8; bump = 1 }) 8 accepted) stay)

-- Manager 5 nominates 9, who accepts and nominates 10.
abbrev office : Office
office = record { factory = registry; pending = empty }

abbrev log : List Transaction
log = nominate 9 10 ∷ accepts 9 ∷ nominate 5 9 ∷ []

abbrev office_after : Office
office_after = record {
  factory = record registry { manager = 9 };
  pending = loaded (record { pending_manager = 10; bump = 252 });
}

handed_over : Run 252 office log office_after
unfolding step accepting nominate_manager accept_nomination require_not_paused verify_manager
    verify_pending_manager
handed_over = next (next (next begin refl) refl) refl

Run-IsHeld_example : Line log 5 9 × IsOwnNomination log office_after
Run-IsHeld_example = Run-IsHeld 252 office log refl handed_over
