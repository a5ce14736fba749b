-- ===== src/Demo/Data/Buckets.antt =====
-- frontend/src/data/mock.ts: the buckets and their objects of the demo.
use rig_stack.Prelude.{ℕ, String, List, [], ◌∷◌}
use rig_stack.Demo.Types.{Bucket, BucketObject}

abbrev bucket : String → String → String → ℕ → String → String → String → Bucket
bucket id name size objects region access created_at = record {
  id = id;
  name = name;
  size = size;
  objects = objects;
  region = region;
  access = access;
  created_at = created_at;
}

abbrev pub buckets : List Bucket
buckets =
    bucket "1" "backups" "48 GB" 1240 "local-1" "private" "2026-03-01"
    ∷ bucket "2" "media-assets" "72 GB" 8430 "local-1" "public" "2026-03-20"
    ∷ bucket "3" "logs-archive" "8 GB" 320 "local-1" "private" "2026-04-05"
    ∷ []

abbrev object : String → String → String → String → BucketObject
object key size last_modified kind = record {
  key = key;
  size = size;
  last_modified = last_modified;
  kind = kind;
}

-- The objects of the buckets, by their ids.
abbrev pub bucket_objects : List (String × List BucketObject)
bucket_objects =
    (
      "1",
      object "db/" "—" "2026-05-20" "folder"
          ∷ object "vms/" "—" "2026-05-18" "folder"
          ∷ object "db/postgres-2026-05-20.sql.gz" "1.2 GB" "2026-05-20" "file"
          ∷ object "db/postgres-2026-05-19.sql.gz" "1.1 GB" "2026-05-19" "file"
          ∷ object "db/postgres-2026-05-18.sql.gz" "1.1 GB" "2026-05-18" "file"
          ∷ object "vms/web-01-snapshot.qcow2" "18 GB" "2026-05-15" "file"
          ∷ object "vms/db-primary-snapshot.qcow2" "24 GB" "2026-05-10" "file"
          ∷ object "README.txt" "1 KB" "2026-03-01" "file"
          ∷ [],
    )
    ∷ (
      "2",
      object "images/" "—" "2026-05-21" "folder"
          ∷ object "videos/" "—" "2026-05-19" "folder"
          ∷ object "fonts/" "—" "2026-04-10" "folder"
          ∷ object "images/hero-banner.webp" "340 KB" "2026-05-21" "file"
          ∷ object "images/logo.svg" "8 KB" "2026-05-01" "file"
          ∷ object "images/og-image.png" "120 KB" "2026-04-28" "file"
          ∷ object "videos/demo-reel.mp4" "420 MB" "2026-05-19" "file"
          ∷ object "videos/tutorial-01.mp4" "280 MB" "2026-05-10" "file"
          ∷ object "fonts/inter-var.woff2" "96 KB" "2026-04-10" "file"
          ∷ [],
    )
    ∷ (
      "3",
      object "2026-05/" "—" "2026-05-22" "folder"
          ∷ object "2026-04/" "—" "2026-04-30" "folder"
          ∷ object "2026-03/" "—" "2026-03-31" "folder"
          ∷ object "2026-05/nginx-access-2026-05-22.log.gz" "14 MB" "2026-05-22" "file"
          ∷ object "2026-05/nginx-access-2026-05-21.log.gz" "12 MB" "2026-05-21" "file"
          ∷ object "2026-05/app-2026-05-22.log.gz" "4 MB" "2026-05-22" "file"
          ∷ object "2026-04/nginx-access-2026-04-30.log.gz" "11 MB" "2026-04-30" "file"
          ∷ [],
    )
    ∷ []
