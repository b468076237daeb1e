-- ===== src/Publish/Batch.antt =====
-- internal/publish/publish.go, Publisher.Publish: one batch to one entity.
pub mod Accounts
pub mod Rounds
use omnistat.Prelude.{
  ℕ, zero, suc, ◌+◌, ◌-◌, Bool, true, false, Bytes, codes, bytes_Eq, Map, lookup, insert, List, [],
  ◌∷◌, ◌++◌, Option, none, some, length, ltb, ◌&&◌, if◌then◌else◌,
}
use omnistat.Manifest.{Kind, is_list}
use omnistat.Values.{Value}
use omnistat.Collect.Sample.{Sample, Batch as SampleBatch}
use omnistat.Settle.{Result, ok, err}
use omnistat.Publish.Types.{
  Api, Rendered, text, flag, Backfill, Metric, Line, Destination, Publisher, HostLink, EntityLabel,
  Outcome, PublishError, bump, nothing_done,
}
use omnistat.Publish.Render.{Formats, RenderError, render}
use omnistat.Publish.Update.{DimResult, keys, update_dims}
use omnistat.Publish.Send.{bump_all, send_chunks}

-- What the loop over the dimensions has gathered.
pub record DimBatch : Type 0 where
  pub dims : Map Bytes Backfill
  pub lines : List Line
  pub acked : List Bytes
  pub dropped : ℕ

abbrev pub no_dims : DimBatch
no_dims = record { dims = []; lines = []; acked = []; dropped = 0 }

-- p.PendingOptions[slug][label]
is_pending : Option (Map Bytes Bool) → Bytes → Bool
is_pending none label = false
is_pending (some options) label = elim (lookup label options) [ none ↦ false | some b ↦ b ]

-- The value of a list sample that a dry run shows although its option does not exist yet.
unfoldable pub pending_label : Publisher → Sample → Option Bytes
unfolding is_pending
pending_label p s = elim s.value [
  | Value.str label ↦
      if p.printing && (is_list s.kind && is_pending (lookup s.slug p.pending_options) label)
      then some label
      else none
  | _ ↦ none
]

line : Sample → Rendered → Bool → Line
line s v pending = record {
  module_name = s.module_name;
  key = s.key;
  slug = s.slug;
  value = v;
  at = s.at;
  pending_option = pending;
}

unfoldable pub add_dim : Sample → Rendered → Bool → DimBatch → DimBatch
unfolding line
add_dim s v pending d = record d {
  dims = insert s.slug (record { value = v; at = s.at }) d.dims;
  lines = d.lines ++ line s v pending ∷ [];
}

unfoldable pub render_dim : Formats → Publisher → Sample → DimBatch → DimBatch
render_dim f p s d = elim (pending_label p s) [
  | some label ↦ add_dim s (text label) true d
  | none ↦ elim (render f p.list_items s) [
    | err e ↦ record d { acked = d.acked ++ s.slug ∷ []; dropped = d.dropped + 1 }
    | ok v ↦ add_dim s v false d
  ]
]

unfoldable pub render_dims : Formats → Publisher → List Sample → DimBatch → DimBatch
render_dims f p [] d = d
render_dims f p (s ∷ ss) d = render_dims f p ss (render_dim f p s d)

-- The newest dimension's instant.
unfoldable pub newest : Map Bytes Backfill → ℕ → ℕ
newest [] at = at
newest ((slug, d) ∷ dims) at = newest dims (if ltb at d.at then d.at else at)

shown_host : Bytes → Bytes
shown_host [] = codes "(host entity to be created)"
shown_host (b ∷ bs) = b ∷ bs

-- The host link accompanies dimensions, and is not sent alone.
unfoldable pub add_link : Option HostLink → DimBatch → DimBatch
unfolding shown_host
add_link none d = d
add_link (some link) d =
    let at = newest d.dims 0 in
    elim d.dims [
      | [] ↦ d
      | _ ∷ _ ↦ record d {
        dims = insert link.slug (record { value = text link.entity_id; at = at }) d.dims;
        lines =
            d.lines
            ++ record {
              module_name = link.module_name;
              key = codes "(host link)";
              slug = link.slug;
              value = text (shown_host link.entity_id);
              at = at;
              pending_option = false;
            }
              ∷ [];
      }
    ]

-- What the loop over the metrics has gathered.
pub record MetricBatch : Type 0 where
  pub metrics : List Metric
  pub lines : List Line
  pub acked : Map Bytes ℕ
  pub dropped : ℕ

abbrev pub no_metrics : MetricBatch
no_metrics = record { metrics = []; lines = []; acked = []; dropped = 0 }

-- `v.(string)`: Render gives a string for each metric, so the other case is not met.
unfoldable pub text_of : Rendered → Bytes
text_of (text s) = s
text_of (flag b) = []

unfoldable pub render_metric : Formats → Publisher → Sample → MetricBatch → MetricBatch
unfolding text_of line
render_metric f p s d = elim (render f p.list_items s) [
  | err e ↦ record d { acked = bump s.slug d.acked; dropped = d.dropped + 1 }
  | ok v ↦ record d {
    metrics = d.metrics ++ record { slug = s.slug; value = text_of v; at = s.at } ∷ [];
    lines = d.lines ++ line s v false ∷ [];
  }
]

unfoldable pub render_metrics : Formats → Publisher → List Sample → MetricBatch → MetricBatch
render_metrics f p [] d = d
render_metrics f p (s ∷ ss) d = render_metrics f p ss (render_metric f p s d)

unfoldable pub destination : Publisher → Destination
destination p = elim p.entity [
  | none ↦ record {
    entity_id = p.entity_id;
    module_name = [];
    template = [];
    key = [];
    would_create = false;
  }
  | some e ↦ record {
    entity_id = p.entity_id;
    module_name = e.module_name;
    template = e.template;
    key = e.key;
    would_create = e.would_create;
  }
]

-- What the two render loops already acknowledge: the observations that cannot be rendered.
unfoldable pub rendered : DimBatch → MetricBatch → Outcome
rendered d m = record nothing_done {
  ack = record { dims = d.acked; metrics = m.acked };
  dropped = d.dropped + m.dropped;
}

unfoldable pub batch_is_empty : SampleBatch → Bool
batch_is_empty b = elim b.dims [ [] ↦ elim b.metrics [ [] ↦ true | _ ∷ _ ↦ false ] | _ ∷ _ ↦ false ]

module _ {S : Type 0} (api : Api S) (f : Formats) (p : Publisher) where
  -- The dry run: everything is printed and acknowledged.
  unfoldable pub print_batch :
      DimBatch → MetricBatch → Outcome → S → (Outcome × Option PublishError) × S
  print_batch d m res s = (
    (
      record res {
        ack = record {
          dims = res.ack.dims ++ keys d.dims;
          metrics = bump_all m.metrics res.ack.metrics;
        };
        dimensions = length d.dims;
        observations = length m.metrics;
      },
      none,
    ),
    api.print (destination p) d.lines m.lines s,
  )

  -- After the dimension update: a failure ends the publish.
  unfoldable pub after_dims :
      MetricBatch
      → Outcome
      → (DimResult × Option PublishError) × S
      → (Outcome × Option PublishError) × S
  after_dims m res ((sent, e), s) =
      let res' = record res {
        ack = record { dims = res.ack.dims ++ sent.acked; metrics = res.ack.metrics };
        requests = res.requests + sent.requests;
        dropped = res.dropped + sent.dropped;
      } in
      elim e [
        | some x ↦ ((res', some x), s)
        | none ↦
            send_chunks api p.entity_id (length m.metrics) m.metrics
              (record res' { dimensions = length sent.acked - sent.dropped }) s
      ]

  unfoldable pub send_batch :
      DimBatch → MetricBatch → Outcome → S → (Outcome × Option PublishError) × S
  unfolding after_dims
  send_batch d m res s = elim d.dims [
    | [] ↦ send_chunks api p.entity_id (length m.metrics) m.metrics res s
    | _ ∷ _ ↦ after_dims m res (update_dims api p.entity_id d.dims s)
  ]

  unfoldable pub publish : SampleBatch → S → (Outcome × Option PublishError) × S
  publish b s =
      let d = add_link p.host_link (render_dims f p b.dims no_dims) in
      let m = render_metrics f p b.metrics no_metrics in
      if batch_is_empty b
      then ((nothing_done, none), s)
      else if p.printing
      then print_batch d m (rendered d m) s
      else send_batch d m (rendered d m) s
