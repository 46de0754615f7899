-- ===== src/Undo/Tests.antt =====
-- Concrete calls of `rm` for the theorems on src/undo.rs.
use fore_ai_assisted_termina.Prelude.{◌≡◌, refl, true, false, some, List, [], ◌∷◌, All, here, there}
use fore_ai_assisted_termina.Prelude.Text.{Text, codes, is, is_one_of, begins, split, text_eq}
use fore_ai_assisted_termina.Undo.{
  RmPlan, no_plan, AbsPath, set_letter, set_letters, set_flag, parse_args, parse_rm_args, join_path,
  normalize, normalize_onto, is_protected, Disk, Checked, refused, checked, nothing_checked,
  check_target, check_found, may_remove, validate,
}
use fore_ai_assisted_termina.Undo.Plans.{Allowed, validate-Allowed, validate-refuses}

abbrev flags : List Text
flags = codes "-rf" ∷ codes "a" ∷ []

flags_run :
    parse_rm_args flags
    ≡ record no_plan { recursive = true; force = true; targets = codes "a" ∷ [] }
unfolding parse_rm_args parse_args set_flag set_letters set_letter is is_one_of begins
flags_run = refl

-- A disk of directories.
abbrev disk : Disk
disk = record {
  stat = λ p. some (record { is_directory = true; is_symlink = false });
  is_empty_dir = λ p. false;
  files_in = λ p. 2;
  bytes_in = λ p. 10;
}

abbrev plan : RmPlan
plan = record no_plan { recursive = true; targets = codes "build" ∷ [] }

abbrev work : AbsPath
work = codes "work" ∷ []

abbrev out : Checked
out = record {
  prepared =
      record { from = codes "work" ∷ codes "build" ∷ []; is_dir = true; files = 2; bytes = 10 }
      ∷ [];
  messages = [];
  exit_code = 0;
  total_bytes = 10;
}

build_checked : validate (codes "/root") disk work plan nothing_checked plan.targets ≡ checked out
unfolding validate check_target check_found may_remove normalize normalize_onto is_protected is
    is_one_of begins split text_eq
build_checked = refl

validate-Allowed_example : All (Allowed (codes "/root") disk work plan) out.prepared
validate-Allowed_example = validate-Allowed (codes "/root") disk work plan out build_checked

-- `rm -r build a/../..` in /work
abbrev up : RmPlan
up = record no_plan { recursive = true; targets = codes "build" ∷ codes "a/../.." ∷ [] }

up_protected : is_protected (codes "/root") (normalize (join_path work (codes "a/../.."))) ≡ true
unfolding normalize normalize_onto is_protected is is_one_of begins split text_eq
up_protected = refl

validate-refuses_example :
    (message : Text) × (validate (codes "/root") disk work up nothing_checked up.targets
      ≡ refused message)
validate-refuses_example =
    validate-refuses (codes "/root") disk work up (codes "a/../..") (there here) up_protected
