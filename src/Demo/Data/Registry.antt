-- ===== src/Demo/Data/Registry.antt =====
-- frontend/src/data/mock.ts: the images and the repositories of the demo.
use rig_stack.Prelude.{ℕ, String, Option, some, none, Bool, false, List, [], ◌∷◌}
use rig_stack.Demo.Types.{Image, ContainerTag, ContainerRepo}

abbrev image : String → String → String → Option String → String → String → String → Image
image id name kind os size status created_at = record {
  id = id;
  name = name;
  kind = kind;
  os = os;
  size = size;
  status = status;
  created_at = created_at;
}

abbrev pub images : List Image
images =
    image "1" "ubuntu-24.04-lts" "VM" (some "Ubuntu") "2.1 GB" "available" "2026-01-10"
    ∷ image "2" "debian-12" "VM" (some "Debian") "1.4 GB" "available" "2026-01-10"
    ∷ image "3" "rocky-linux-9" "VM" (some "Rocky Linux") "1.8 GB" "available" "2026-02-01"
    ∷ image "4" "myapp/api" "Container" none "340 MB" "available" "2026-05-18"
    ∷ image "5" "myapp/worker" "Container" none "320 MB" "available" "2026-05-18"
    ∷ []

abbrev tagged : String → String → String → String → ContainerTag
tagged tag size pushed digest = record { tag = tag; size = size; pushed = pushed; digest = digest }

abbrev repo :
    String
    → String
    → String
    → String
    → ℕ
    → String
    → String
    → Bool
    → List ContainerTag
    → ContainerRepo
repo id namespace name full_name image_count total_size last_pushed is_public tags = record {
  id = id;
  namespace = namespace;
  name = name;
  full_name = full_name;
  image_count = image_count;
  total_size = total_size;
  last_pushed = last_pushed;
  is_public = is_public;
  tags = tags;
}

abbrev pub container_repos : List ContainerRepo
container_repos =
    repo "1" "myapp" "api" "myapp/api" 3 "1.0 GB" "2026-05-18" false (
      tagged "v2.1" "340 MB" "2026-05-18" "sha256:a1b2c3d4e5f6"
      ∷ tagged "v2.0" "335 MB" "2026-05-01" "sha256:e5f6g7h8i9j0"
      ∷ tagged "latest" "340 MB" "2026-05-18" "sha256:a1b2c3d4e5f6"
      ∷ [])
    ∷ repo "2" "myapp" "worker" "myapp/worker" 2 "640 MB" "2026-05-18" false (
        tagged "v2.1" "320 MB" "2026-05-18" "sha256:i9j0k1l2m3n4"
        ∷ tagged "latest" "320 MB" "2026-05-18" "sha256:i9j0k1l2m3n4"
        ∷ [])
    ∷ repo "3" "infra" "nginx-custom" "infra/nginx-custom" 1 "45 MB" "2026-04-10" false
        (tagged "1.25-custom" "45 MB" "2026-04-10" "sha256:m3n4o5p6q7r8" ∷ [])
    ∷ []
