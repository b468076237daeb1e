-- ===== src/Tests/Publish.antt =====
-- Runs of internal/publish against a platform that accepts, and one that refuses.
use omnistat.Prelude.{
  some, Bytes, Map, zero, suc, ℕ, ◌+◌, ◌≤◌, false, codes, bytes_eq, bytes_lt, bytes_Eq, lookup,
  insert, remove, insert_sorted, sort, [], ◌∷◌, none, ◌≡◌, refl, length,
}
use omnistat.Settle.{ok, err}
use omnistat.Manifest.{is_metric_kind}
use omnistat.Collect.Sample.{target_Eq, is_metric}
use omnistat.Collect.Buffer.{
  queue_of, push, add, new_buffer, snapshot, values, pending_slugs, gather, ack, snap_times,
  ack_dim, ack_dims, ack_queue, ack_metric, ack_metrics,
}
use omnistat.Collect.Buffer.Sound.{no_logs, add_all, log_all}
use omnistat.Publish.Types.{rejected, Backfill, text, Api, Publisher, Metric, bump}
use omnistat.Publish.Render.{Formats, render, render_value}
use omnistat.Publish.Update.{
  cut_prefix, named_slugs, rejected_slugs, sent_slug, is_some, remove_all, update_dims,
  update_attempts, drop_rejected, keys,
}
use omnistat.Publish.Update.Accounts.{Accounted, counting, update_dims-Accounted}
use omnistat.Publish.Send.{send_chunks, bump_all}
use omnistat.Publish.Batch.{
  publish, render_dim, render_dims, render_metric, render_metrics, add_link, add_dim, pending_label,
  send_batch, after_dims, rendered, batch_is_empty, text_of,
}
use omnistat.Publish.Batch.Rounds.{publish_and_ack, publish_and_ack_all}
use omnistat.Tests.Buffer.{load, early, late, filled, filled-Sound, early_small}

-- The state counts the calls.
abbrev pub accepting : Api ℕ
accepting = record {
  update_entity = λ id attrs n. (ok tt, n + 1);
  ingest_metrics = λ id metrics n. (ok tt, n + 1);
  print = λ d ds ms n. n;
}

abbrev pub formats : Formats
formats = record { number = λ n. codes "1"; date = λ t. codes "d"; datetime = λ t. codes "t" }

abbrev pub publisher : Publisher
publisher = record {
  entity_id = codes "e1";
  entity = none;
  host_link = none;
  list_items = [];
  pending_options = [];
  printing = false;
}

-- all that the tests compute with
program : Unit {0}
unfolding add_all add push queue_of new_buffer snapshot values pending_slugs gather ack snap_times
    ack_dim ack_dims ack_queue ack_metric ack_metrics lookup insert remove insert_sorted sort
    bytes_eq bytes_lt is_metric is_metric_kind publish render_dim render_dims render_metric
    render_metrics add_link add_dim pending_label send_batch after_dims rendered batch_is_empty
    text_of update_dims update_attempts drop_rejected keys send_chunks bump_all bump render
    render_value
program = tt

publish_and_ack_example :
    queue_of
      (ack
        (add_all filled late)
        (snapshot filled)
        (publish accepting formats publisher (snapshot filled) 0).0.0.ack)
      (codes "cpu_load")
    ≡ record { items = load 3 ∷ []; removed = 2 }
unfolding program
publish_and_ack_example =
    publish_and_ack accepting formats publisher filled late 0 filled-Sound early_small
      (codes "cpu_load")

publish_and_ack_all_example :
    length (log_all no_logs early (codes "cpu_load"))
    ≤ (queue_of
        (ack
          (add_all filled late)
          (snapshot filled)
          (publish accepting formats publisher (snapshot filled) 0).0.0.ack)
        (codes "cpu_load")).removed
unfolding program
publish_and_ack_all_example =
    publish_and_ack_all accepting formats publisher filled late 0 filled-Sound early_small
      (codes "cpu_load") refl

abbrev point : Metric
point = record { slug = codes "cpu_load"; value = codes "1"; at = 1 }

-- A platform that refuses the first update because of one attribute.
abbrev picky : Api ℕ
picky = record accepting {
  update_entity = λ id attrs n. elim n [
    | zero ↦ (err (rejected (some ((codes "attributes.a", []) ∷ []))), 1)
    | suc k ↦ (ok tt, suc (suc k))
  ];
}

abbrev two_dims : Map Bytes Backfill
two_dims =
    (codes "a", record { value = text (codes "x"); at = 1 })
    ∷ (codes "b", record { value = text (codes "y"); at = 1 })
    ∷ []

update_dims-Accounted_example :
    let out = update_dims (counting picky) (codes "e1") two_dims (0, 0) in
    Accounted two_dims 2 out.1.1 out.0.0
update_dims-Accounted_example = update_dims-Accounted picky (codes "e1") two_dims 0

-- The refused attribute is dropped, and the rest is sent again.
picky_run :
    (update_dims picky (codes "e1") two_dims 0).0.0
    ≡ record { acked = codes "a" ∷ codes "b" ∷ []; dropped = 1; requests = 2 }
unfolding program cut_prefix named_slugs rejected_slugs sent_slug is_some remove_all
picky_run = refl
