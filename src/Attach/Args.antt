-- ===== src/Attach/Args.antt =====
-- The arguments of `--attach`: `parse_attach_args` and `parse_detach_key` of src/attach.rs.
pub mod Named
use g2mirror.Prelude.{
  ℕ, ◌+◌, ◌-◌, ◌%◌, ◌^◌, Bool, true, false, not, ◌&&◌, List, [], ◌∷◌, Option, none, some, is_some,
  Bytes, ltb, within, ◌==◌, if◌then◌else◌, same, ascii,
}
use g2mirror.Prelude.Results.{Result, ok, err, ◌>>=◌}

abbrev pub default_detach_key : ℕ
default_detach_key = 0x1c

pub record AttachOpts : Type 0 where
  pub pattern : Option Bytes
  pub force : Bool
  pub detach_key : Option ℕ

pub data ArgError : Type 0 where
  requires_value : ArgError
  cannot_parse : Bytes → ArgError
  not_single : Bytes → ArgError
  not_control : Bytes → ArgError
  unexpected : Option Bytes → ArgError

unfoldable pub strip_prefix : Bytes → Bytes → Option Bytes
strip_prefix [] s = some s
strip_prefix (p ∷ ps) [] = none
strip_prefix (p ∷ ps) (c ∷ cs) = let rest = strip_prefix ps cs in if p == c then rest else none

abbrev pub or_else : Option Bytes → Option Bytes → Option Bytes
or_else none b = b
or_else (some a) b = some a

abbrev pub upper : ℕ → ℕ
upper c = if within b'a' b'z' c then c - 32 else c

-- `eq_ignore_ascii_case`
unfoldable pub same_ignoring_case : Bytes → Bytes → Bool
same_ignoring_case [] [] = true
same_ignoring_case [] (d ∷ ds) = false
same_ignoring_case (c ∷ cs) [] = false
same_ignoring_case (c ∷ cs) (d ∷ ds) = upper c == upper d && same_ignoring_case cs ds

-- What stands behind the prefix.
unfoldable pub control_key : Bytes → Option Bytes → Result ArgError (Option ℕ)
control_key s none = err (cannot_parse s)
control_key s (some []) = err (not_single s)
control_key s (some (c ∷ [])) =
    if within b'@' b'_' (upper c) then ok (some (upper c % 2 ^ 5)) else err (not_control s)
control_key s (some (c ∷ d ∷ ds)) = err (not_single s)

abbrev pub behind_prefix : Bytes → Option Bytes
behind_prefix s = or_else (strip_prefix (ascii "ctrl-") s) (
    or_else (strip_prefix (ascii "ctrl+") s)
      (or_else (strip_prefix (ascii "C-") s) (strip_prefix (ascii "^") s)))

unfoldable pub parse_detach_key : Bytes → Result ArgError (Option ℕ)
unfolding strip_prefix same_ignoring_case control_key
parse_detach_key s =
    if same_ignoring_case s (ascii "none") then ok none else control_key s (behind_prefix s)

abbrev starts_with_dash : Bytes → Bool
starts_with_dash [] = false
starts_with_dash (c ∷ cs) = c == b'-'

-- The loop; an argument is `none` if it is not UTF-8.
unfoldable pub parse_from : AttachOpts → List (Option Bytes) → Result ArgError AttachOpts
unfolding parse_detach_key
parse_from opts [] = ok opts
parse_from opts (none ∷ args) = err (unexpected none)
parse_from opts (some arg ∷ []) =
    if same arg (ascii "--force")
    then ok (record opts { force = true })
    else (if same arg (ascii "--detach-key")
        then err requires_value
        else (if not (starts_with_dash arg) && not (is_some opts.pattern)
            then ok (record opts { pattern = some arg })
            else err (unexpected (some arg))))
parse_from opts (some arg ∷ value ∷ args) =
    let forced = parse_from (record opts { force = true }) (value ∷ args) in
    let with_pattern = parse_from (record opts { pattern = some arg }) (value ∷ args) in
    let with_key = λ (key : Option ℕ). parse_from (record opts { detach_key = key }) args in
    if same arg (ascii "--force")
    then forced
    else (if same arg (ascii "--detach-key")
        then (elim value [
          | none ↦ err requires_value
          | some v ↦ parse_detach_key v >>= λ key. with_key key
        ])
        else (if not (starts_with_dash arg) && not (is_some opts.pattern)
            then with_pattern
            else err (unexpected (some arg))))

unfoldable pub parse_attach_args : List (Option Bytes) → Result ArgError AttachOpts
unfolding parse_from
parse_attach_args args =
    parse_from (record { pattern = none; force = false; detach_key = some default_detach_key }) args
