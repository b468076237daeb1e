-- ===== src/Manifest/Resolve/Moored.antt =====
-- internal/manifest/resolve.go, `Resolve`: the references of validated manifests.
use omnistat.Prelude.{
  Bool, true, false, Bytes, bytes_eq, bytes_eq_iff, bytes_Eq, Map, lookup, List, [], ◌∷◌, ◌++◌,
  some, ◌≡◌, sym, ◌∙◌, subst, ap, arith, All, All-imp, All-both, All-sort, append-nil_both,
  Bool-cases, inl, inr,
}
use omnistat.Prelude.Keyed.{values}
use omnistat.Settle.{ok}
use omnistat.Manifest.{contains, Desired, DesiredTemplate, DesiredAttribute, is_reference}
use omnistat.Manifest.Validate.{Manifest, Attribute, entities_of, validate}
use omnistat.Manifest.Validate.Links.{Moored, validate-Moored}
use omnistat.Manifest.Resolve.{
  AttributeOverride, ModuleOverride, Overrides, attribute_override, module_override, resolve_host,
  by_module, override_problems,
}
use omnistat.Manifest.Resolve.Templates.{Entities, slugs_of}
use omnistat.Manifest.Resolve.Attributes.{
  Made, add_attribute, add_attributes, attribute_pass, desired_attribute, display_pass, place,
  attribute_id, sits_on, unlabelled, with_display,
}
use omnistat.Manifest.Resolve.Whole.{
  attribute_before, desired, entities, find_first, host_of, label, made, no_entities, problems,
  resolve, start, template_at,
}
use omnistat.Manifest.Resolve.Keyed.{resolve-desired}
use omnistat.Manifest.Resolve.Sound.{SitsIn, resolve-SitsIn, with_display-templates}
use omnistat.Manifest.Resolve.Links.{Linked, resolve-Linked, add_desired-All}
use omnistat.Manifest.Resolve.Complete.Found.{find_first-All}
use omnistat.Manifest.Resolve.Entities.{Off, entity_pass-Off}

-- The attribute, if it is a reference, does not sit on the host template.
abbrev OffHost : Bytes → DesiredAttribute → Type 0
OffHost host d = (is_reference d.kind ≡ true) → sits_on host d.templates ≡ false

-- The references of a module have a template other than the host's.
abbrev Away : Entities → Bytes → Bytes → Attribute → Type 0
Away e host name a = (is_reference a.kind ≡ true) → Off host (slugs_of e name) a.template

module _ (e : Entities) (host : Bytes) where
  place-OffHost :
      (name : Bytes) (mo : ModuleOverride) (o : AttributeOverride) (a : Attribute)
      → Away e host name a
      → OffHost host (desired_attribute host name o (place e host name o.template mo.template a) a)
  unfolding desired_attribute place sits_on
  place-OffHost name mo o a away r = let (ent, there, far) = away r in rw (there, place) far

  add_attributes-OffHost :
      (name : Bytes) (mo : ModuleOverride) (l : List Attribute) (s : Made)
      → All (Away e host name) l
      → All (λ x. OffHost host x.1) s.attrs
      → All (λ x. OffHost host x.1) (add_attributes e host name mo l s).attrs
  unfolding add_attributes add_attribute
  add_attributes-OffHost name mo [] s away h = h
  add_attributes-OffHost name mo (a ∷ l) s away h =
      let o = attribute_override (lookup a.key mo.attributes) in
      let p = place e host name o.template mo.template a in
      let d = desired_attribute host name o p a in
      add_attributes-OffHost name mo l (add_attribute e host name mo a s) away.1 (
        add_desired-All (OffHost host) (attribute_id name a.key) d p.problems s
          (place-OffHost name mo o a away.0) h)

  attribute_pass-OffHost :
      (ov : Overrides) (ms : List Manifest) (s : Made)
      → All (λ m. All (Away e host m.module_name) m.attributes) ms
      → All (λ x. OffHost host x.1) s.attrs
      → All (λ x. OffHost host x.1) (attribute_pass e host ov ms s).attrs
  unfolding attribute_pass
  attribute_pass-OffHost ov [] s away h = h
  attribute_pass-OffHost ov (m ∷ ms) s away h =
      let mo = module_override (lookup m.module_name ov.modules) in
      attribute_pass-OffHost ov ms (add_attributes e host m.module_name mo m.attributes s) away.1
        (add_attributes-OffHost m.module_name mo m.attributes s away.0 h)

with_display-kind : (l : Bytes) (d : DesiredAttribute) → (with_display l d).kind ≡ d.kind
unfolding with_display
with_display-kind l d = ground arith

display_pass-OffHost :
    (host l : Bytes) (m : Map Bytes DesiredAttribute)
    → All (λ x. OffHost host x.1) m
    → All (OffHost host) (values (display_pass l m))
unfolding display_pass
display_pass-OffHost host l [] h = tt
display_pass-OffHost host l ((k, d) ∷ m) h = (
  λ r.
      ap (sits_on host) (with_display-templates l d)
      ∙ h.0 (ap is_reference (sym (with_display-kind l d)) ∙ r),
  display_pass-OffHost host l m h.1,
)

-- A reference points to a template and shows an attribute that is no reference.
abbrev pub Shows : Desired → DesiredAttribute → Type 0
Shows d a =
    (is_reference a.kind ≡ true)
    → ((t : DesiredTemplate) × (template_at d a.target ≡ some t))
      × ((b : DesiredAttribute) × (find_first (λ x. bytes_eq x.slug a.display) d.attributes
            ≡ some b)
          × (is_reference b.kind ≡ false))

-- All that the desired schema refers to is in it.
pub record Grounded (d : Desired) : Type 0 where
  pub seated : All (SitsIn d) d.attributes
  pub shows : All (Shows d) d.attributes

-- Where references sit off the host template, what a host link shows is no reference.
Linked-Shows :
    (d : Desired) (a : DesiredAttribute)
    → All (SitsIn d) d.attributes
    → All (OffHost d.host) d.attributes
    → Linked d a
    → Shows d a
unfolding sits_on
Linked-Shows d a seated off linked r =
    let (host, (b, found, sits)) = linked.0 r in
    let test : DesiredAttribute → Bool = λ x. bytes_eq x.slug a.display in
    let (tpl, t, one, there, _) = find_first-All (SitsIn d) test d.attributes b seated found in
    let same : tpl ≡ d.host =
      (bytes_eq_iff tpl d.host).0 (subst (λ z. sits_on d.host z ≡ true) one sits) in
    let away = find_first-All (OffHost d.host) test d.attributes b off found in
    (
      (t, subst (λ z. template_at d z ≡ some t) (same ∙ sym host) there),
      (
        b,
        found,
        elim (Bool-cases (is_reference b.kind)) [
          | inr n ↦ n
          | inl y ↦ absurd (ground (arith, away y, sits))
        ],
      ),
    )

module _ (ms : List Manifest) (ov : Overrides) where
  clean : problems ms ov ≡ [] → (entities ms ov).problems ≡ []
  unfolding problems
  clean h =
      let after = (made ms ov).problems ++ unlabelled (label ms ov).display (made ms ov).attrs in
      let known = override_problems (by_module ms []) ov.modules in
      let rest = (entities ms ov).problems ++ after in
      let h1 = append-nil_both (resolve_host ov.host_template).1 (known ++ rest) h in
      let h2 = append-nil_both known rest h1.1 in
      (append-nil_both (entities ms ov).problems after h2.1).0

  made-OffHost :
      validate ms ≡ []
      → problems ms ov ≡ []
      → All (λ x. OffHost (host_of ms ov) x.1) (made ms ov).attrs
  unfolding made entities start
  made-OffHost valid none_found =
      let host = host_of ms ov in
      let (moored, distinct) = validate-Moored ms valid in
      let (_, off, _) = entity_pass-Off host ov ms no_entities (clean none_found) distinct in
      attribute_pass-OffHost (entities ms ov) host ov ms (start ms ov)
        (All-imp ms (λ m (on, far). All-imp m.attributes (λ a h r. far a.template (h r)) on)
          (All-both Moored
            (λ m.
              (k : Bytes)
              → contains k (entities_of m.templates) ≡ true
              → Off host (slugs_of (entities ms ov) m.module_name) k)
            ms moored off))
        tt

  -- What Resolve returns for validated manifests refers only to templates and attributes that are
  -- in it.
  pub resolve-Grounded : (d : Desired) → validate ms ≡ [] → resolve ms ov ≡ ok d → Grounded d
  resolve-Grounded d valid h =
      let (same, none_found) = resolve-desired ms ov d h in
      let l = (label ms ov).display in
      let off : All (OffHost (desired ms ov).host) (desired ms ov).attributes =
        unfold desired in
        All-sort attribute_before (OffHost (host_of ms ov))
          (values (display_pass l (made ms ov).attrs))
          (display_pass-OffHost (host_of ms ov) l (made ms ov).attrs
            (made-OffHost valid none_found)) in
      let seated = resolve-SitsIn ms ov d h in
      let away : All (OffHost d.host) d.attributes =
        subst (λ x. All (OffHost x.host) x.attributes) (sym same) off in
      record {
        seated = seated;
        shows = All-imp d.attributes (λ a. Linked-Shows d a seated away) (resolve-Linked ms ov d h);
      }
