-- ===== src/Manifest/Resolve/WellFormed.antt =====
-- internal/manifest/resolve.go, `Resolve`: what the other packages rely on in a desired schema.
use omnistat.Prelude.{List, ◌≡◌, All, AllDistinct}
use omnistat.Settle.{ok}
use omnistat.Manifest.{Desired}
use omnistat.Manifest.Validate.{Manifest}
use omnistat.Manifest.Resolve.{Overrides}
use omnistat.Manifest.Resolve.Whole.{resolve}
use omnistat.Manifest.Resolve.Keyed.{resolve-AllDistinct}
use omnistat.Manifest.Resolve.Sound.{SitsIn, resolve-SitsIn}
use omnistat.Manifest.Resolve.Links.{Linked, resolve-Linked}

-- The slugs are distinct, every attribute sits on one template that is there, and every reference
-- is a host link that shows a label of the host.
pub record WellFormed (d : Desired) : Type 0 where
  pub templates_distinct : AllDistinct (λ t. t.slug) d.templates
  pub attributes_distinct : AllDistinct (λ a. a.slug) d.attributes
  pub seated : All (SitsIn d) d.attributes
  pub linked : All (Linked d) d.attributes

-- What Resolve returns without an error has distinct template slugs and distinct attribute slugs,
-- each attribute sits on one template that is in it, and each reference points to the host
-- template and shows an attribute that sits on it, while no other attribute points to or shows
-- anything.
pub resolve-WellFormed :
    (ms : List Manifest) (ov : Overrides) (d : Desired) → resolve ms ov ≡ ok d → WellFormed d
resolve-WellFormed ms ov d h = record {
  templates_distinct = (resolve-AllDistinct ms ov d h).0;
  attributes_distinct = (resolve-AllDistinct ms ov d h).1;
  seated = resolve-SitsIn ms ov d h;
  linked = resolve-Linked ms ov d h;
}
