-- ===== src/Tests/Manifest.antt =====
-- Runs of internal/manifest/validate.go: a manifest without a problem, and one with a slug twice.
use omnistat.Prelude.{
  Bytes, codes, bytes_eq, bytes_Eq, lookup, insert, List, [], ◌∷◌, ◌≡◌, refl, AllDistinct,
}
use omnistat.Runes.{runes, is_space}
use omnistat.Manifest.{Kind, is_list, is_reference, contains}
use omnistat.Manifest.Validate.{
  Manifest, Attribute, pos, valid_slug, valid_module_name, valid_kind, all_space, is_spaces,
  template_problems, entities_of, host_problems, key_problems, check_slug, option_problems,
  options_problems, check_reference, platform_problems, check_attribute, check_attributes,
  link_problems, name_problems, check_manifest, check_manifests, validate,
}
use omnistat.Manifest.Validate.Distinct.{all_attributes, validate-AllDistinct}

abbrev attribute : Bytes → Attribute
attribute slug = record {
  key = slug;
  name = codes "N";
  slug = slug;
  kind = Kind.text;
  description = [];
  options = [];
  template = [];
  target = [];
  label = pos 0;
  platforms = codes "linux" ∷ [];
}

abbrev manifest : List Attribute → Manifest
manifest attributes = record { module_name = codes "os"; templates = []; attributes = attributes }

abbrev good : List Manifest
good = manifest (attribute (codes "a") ∷ attribute (codes "b") ∷ []) ∷ []

-- all that the tests compute with
program : Unit {0}
unfolding validate runes is_space is_list is_reference contains valid_slug valid_module_name
    valid_kind all_space is_spaces template_problems entities_of host_problems key_problems
    check_slug option_problems options_problems check_reference platform_problems check_attribute
    check_attributes link_problems name_problems check_manifest check_manifests lookup insert
    bytes_eq
program = tt

good_run : validate good ≡ []
unfolding program
good_run = refl

validate-AllDistinct_example : AllDistinct (λ (a : Attribute). a.slug) (all_attributes good)
validate-AllDistinct_example = validate-AllDistinct good good_run
