-- ===== src/Tests/Entities.antt =====
-- Runs of internal/publish/entities.go: one disk, on a platform that accepts everything.
use omnistat.Prelude.{
  ℕ, ◌+◌, Bytes, codes, bytes_eq, bytes_Eq, lookup, Unique, [], ◌∷◌, ◌≡◌, refl, if◌then◌else◌,
  insert,
}
use omnistat.Settle.{ok}
use omnistat.Identity.Api.{found}
use omnistat.Collect.Sample.{Target, target_Eq, target_eq, is_host}
use omnistat.Collect.Buffers.{Buffers, new_buffers, add, add_new}
use omnistat.Collect.Buffers.Cap.{add_each}
use omnistat.Publish.Entities.{Resolver, Entities, publish_all}
use omnistat.Publish.Entities.Counted.{busy, host_gone, publish_all-counted}
use omnistat.Tests.Buffer.{load}
use omnistat.Tests.Publish.{accepting, formats, publisher}

abbrev disk : Target
disk = record { module_name = codes "disk"; template = codes "disks"; key = codes "sda" }

abbrev buffers : Buffers
buffers = add_each (new_buffers 2) (load 1 ∷ record (load 2) { target = disk } ∷ [])

buffers-Unique : Unique buffers.targets
unfolding add_each add add_new is_host target_eq new_buffers lookup insert bytes_eq
buffers-Unique = (refl, tt)

abbrev resolver : Resolver Bytes ℕ
resolver = record {
  resolve = λ name template key n. (ok (codes "e2", found), n + 1);
  forget = λ template key n. n;
}

abbrev entities : Entities
entities = record { host = publisher; host_link = [] }

publish_all-counted_example :
    let out = publish_all accepting formats resolver entities buffers 0 in
    out.0.0.1.entities + out.0.0.1.entities_failed
    ≡ (if host_gone out.0.1 then 0 else busy buffers.targets)
publish_all-counted_example =
    publish_all-counted accepting formats resolver entities buffers 0 buffers-Unique
