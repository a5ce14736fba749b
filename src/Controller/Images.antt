-- ===== src/Controller/Images.antt =====
-- controller/internal/service/image.go: the catalog of images.
use rig_stack.Prelude.{String, ◌==◌, List, [], ◌∷◌, Bool, any}
use rig_stack.Client.Types.{ApiImage}

-- `catalog`; the fields of `Image` are those that the client reads.
abbrev pub catalog : List ApiImage
catalog =
    record {
      id = "ubuntu-24.04";
      name = "Ubuntu 24.04 LTS";
      os = "Ubuntu";
      version = "24.04";
      url = "https://cloud-images.ubuntu.com/noble/current/noble-server-cloudimg-amd64.img";
      size_gb = 4;
    }
    ∷ record {
      id = "debian-13";
      name = "Debian 13 (Trixie)";
      os = "Debian";
      version = "13";
      url =
          "https://cloud.debian.org/images/cloud/trixie/latest/debian-13-genericcloud-amd64.qcow2";
      size_gb = 3;
    }
    ∷ record {
      id = "debian-12";
      name = "Debian 12 (Bookworm)";
      os = "Debian";
      version = "12";
      url =
          "https://cloud.debian.org/images/cloud/bookworm/latest/debian-12-genericcloud-amd64.qcow2";
      size_gb = 3;
    }
    ∷ []

-- Whether `ImageService.Get` finds the image.
abbrev pub in_catalog : String → Bool
in_catalog id = any (λ (i : ApiImage). i.id == id) catalog
