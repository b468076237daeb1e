-- ===== src/Tests/Schema.antt =====
-- Runs of internal/schema: a project that has everything, one that lacks options, and a race in
-- which an option is never added.
use omnistat.Prelude.{
  ℕ, ◌≤◌, Bool, true, false, Bytes, codes, Unique, bytes_eq, bytes_lt, bytes_Eq, lookup, insert,
  insert_sorted, sort, List, [], ◌∷◌, none, ◌≡◌, refl, arith, All, count_if,
}
use omnistat.Settle.{ok, err, until}
use omnistat.Manifest.{
  Kind, kind_name, is_reference, is_list, contains, DesiredTemplate, DesiredAttribute, Desired,
}
use omnistat.Schema.Types.{Current, type_of, slug_of, Api, already_exists}
use omnistat.Schema.Diff.{
  diff, add_bound, bound_to, create_templates, plan_new, plan_existing, plan_attribute,
  plan_attributes, missing_options, plan_bind, plan_binds, points_at_target, add_option,
}
use omnistat.Schema.Diff.Bound.{bound_by}
use omnistat.Schema.Diff.InPlace.{InPlace}
use omnistat.Schema.Diff.Additive.{Additive, diff-Additive}
use omnistat.Schema.Execute.{
  execute, execute_option, exists, resolved_from, template_ids_of, attribute_ids_of, list_items_of,
  merge, overlay, overlay_items, attribute_id_of, with_item,
}
use omnistat.Schema.Apply.{
  ActionResult, Report, apply, run, finish, is_exists, performed, stopped, not_yet_done, drop_done,
  done_keys, action_key, action_name, is_bind,
}
use omnistat.Schema.Apply.Converged.{Untouched, apply-InPlace}
use omnistat.Schema.Apply.Keys.{Distinct}
use omnistat.Schema.Apply.Once.{actions_of}
use omnistat.Schema.Apply.Written.{writing, still, no_writes}
use omnistat.Schema.Apply.Unrepeated.{WrittenOnce, apply-WrittenOnce}
use omnistat.Schema.Apply.Ids.{Known, noting, quiet, no_ids}
use omnistat.Schema.Apply.Kept.{apply-Known}
use omnistat.Schema.Apply.Options.{option_of, is_option, not_yet_done-options}

abbrev host_template : DesiredTemplate
host_template = record {
  slug = codes "host";
  name = codes "Host";
  description = [];
  entity = false;
  module_name = [];
  key = [];
}

abbrev role : DesiredAttribute
role = record {
  slug = codes "role";
  name = codes "Role";
  description = [];
  kind = Kind.list;
  options = codes "a" ∷ codes "b" ∷ [];
  templates = codes "host" ∷ [];
  module_name = codes "os";
  key = codes "role";
  platforms = [];
  entity_template = [];
  target = [];
  display = [];
}

abbrev desired : Desired
desired = record { host = codes "host"; templates = host_template ∷ []; attributes = role ∷ [] }

-- The project with these options of the attribute.
abbrev project : List Bytes → Current
project options = record {
  templates =
      (
        codes "host",
        record {
          id = codes "t1";
          slug = codes "host";
          name = codes "Host";
          attribute_ids = codes "a1" ∷ [];
        },
      )
      ∷ [];
  attributes =
      (
        codes "role",
        record {
          id = codes "a1";
          slug = codes "role";
          name = codes "Role";
          type_name = codes "list";
          options = options;
          option_ids = [];
          ref_template_id = [];
        },
      )
      ∷ [];
}

abbrev complete : Current
complete = project (codes "b" ∷ codes "a" ∷ [])

complete-InPlace : InPlace desired complete
unfolding lookup bytes_eq type_of kind_name is_reference is_list contains bound_by
complete-InPlace = record {
  templates = ((λ e. cc), tt);
  attributes = (
    record {
      existing = record {
        id = codes "a1";
        slug = codes "role";
        name = codes "Role";
        type_name = codes "list";
        options = codes "b" ∷ codes "a" ∷ [];
        option_ids = [];
        ref_template_id = [];
      };
      found = refl;
      typed = refl;
      pointed = λ h. cc;
      optioned = λ h. (refl, (refl, tt));
      listed = (
        (
          record {
            id = codes "t1";
            slug = codes "host";
            name = codes "Host";
            attribute_ids = codes "a1" ∷ [];
          },
          refl,
          refl,
        ),
        tt,
      );
    },
    tt,
  );
}

diff-Additive_example : All (Additive (project [])) (diff desired (project [])).actions
diff-Additive_example = diff-Additive (project []) desired

-- The state is the list of options that were added. Another host has added "a" meanwhile.
abbrev racing : Api (List Bytes)
racing = record {
  read_schema = λ s. (ok (project (codes "a" ∷ s)), s);
  create_template = λ p s. (err already_exists, s);
  create_attribute = λ p s. (err already_exists, s);
  add_list_option = λ id option s. elim (bytes_eq option (codes "a")) [
    | true ↦ (err already_exists, s)
    | false ↦ (ok option, option ∷ s)
  ];
  bind_attribute = λ id ids s. (ok tt, s);
}

abbrev waking : ℕ → List Bytes → Bool × List Bytes
waking d s = (false, s)

templates-Unique : Unique complete.templates
unfolding lookup
templates-Unique = (refl, tt)

attributes-Unique : Unique complete.attributes
unfolding lookup
attributes-Unique = (refl, tt)

apply-InPlace_example :
    (rep : Report) × Untouched complete rep
    × (apply racing waking [] desired complete [] ≡ ((rep, none), []))
apply-InPlace_example =
    apply-InPlace racing waking [] desired complete [] templates-Unique attributes-Unique
      complete-InPlace

desired-Distinct : Distinct desired
desired-Distinct = ((tt, tt), (tt, tt))

apply-WrittenOnce_example :
    WrittenOnce
      (codes "host")
      (apply (writing racing) (still waking) [] desired (project []) ([], no_writes)).1.1
apply-WrittenOnce_example =
    apply-WrittenOnce racing waking [] desired (codes "host") (project []) [] desired-Distinct

abbrev skipped_a : ActionResult
skipped_a = record { action = add_option role (codes "a1") (codes "a"); skipped = true }

one_done : 1 ≤ count_if (option_of (codes "role")) (actions_of (skipped_a ∷ []))
unfolding count_if actions_of is_option bytes_eq
one_done = omega arith

not_yet_done-options_example :
    count_if
      (option_of (codes "role"))
      (not_yet_done (diff desired (project (codes "a" ∷ []))).actions (skipped_a ∷ []))
    ≡ 0
not_yet_done-options_example =
    not_yet_done-options (codes "role") (diff desired (project (codes "a" ∷ []))).actions
      (skipped_a ∷ []) one_done

-- all that the runs compute with
program : Unit {0}
unfolding diff add_bound bound_to create_templates plan_new plan_existing plan_attribute
    plan_attributes missing_options plan_bind plan_binds points_at_target lookup insert
    insert_sorted sort bytes_eq bytes_lt type_of kind_name is_reference is_list contains apply run
    finish execute execute_option exists is_exists performed stopped not_yet_done drop_done
    done_keys action_key action_name slug_of is_bind resolved_from template_ids_of attribute_ids_of
    list_items_of merge overlay overlay_items attribute_id_of with_item until
program = tt

-- The run ends without an error, and has added nothing, although "b" is missing.
lost_option_error : (apply racing waking [] desired (project []) []).0.1 ≡ none
unfolding program
lost_option_error = refl

lost_option_state : (apply racing waking [] desired (project []) []).1 ≡ []
unfolding program
lost_option_state = refl

apply-Known_example :
    let out = apply (noting racing) (quiet waking) [] desired (project []) ([], no_ids) in
    Known out.1.1 out.0.0.resolved
apply-Known_example = apply-Known racing waking [] desired (project []) []
