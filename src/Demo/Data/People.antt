-- ===== src/Demo/Data/People.antt =====
-- frontend/src/data/mock.ts: the users, the activity and the use of resources of the demo.
use rig_stack.Prelude.{ℕ, String, List, [], ◌∷◌}
use rig_stack.Demo.Types.{IamUser, Activity}

abbrev user : String → String → String → String → String → String → IamUser
user id name email role status last_access = record {
  id = id;
  name = name;
  email = email;
  role = role;
  status = status;
  last_access = last_access;
}

abbrev pub iam_users : List IamUser
iam_users =
    user "1" "Missael" "missael@rigstack.local" "admin" "active" "Agora"
    ∷ user "2" "Ana Silva" "ana@rigstack.local" "developer" "active" "2h atrás"
    ∷ user "3" "Carlos Lima" "carlos@rigstack.local" "developer" "active" "1d atrás"
    ∷ user "4" "Bot CI/CD" "ci@rigstack.local" "developer" "active" "5min atrás"
    ∷ user "5" "João Costa" "joao@rigstack.local" "viewer" "inactive" "30d atrás"
    ∷ []

abbrev activity : String → String → String → String → Activity
activity id message kind time = record { id = id; message = message; kind = kind; time = time }

abbrev pub recent_activity : List Activity
recent_activity =
    activity "1" "VM \"web-01\" iniciada com sucesso" "success" "há 5 min"
    ∷ activity "2" "Bucket \"backups\" criado" "success" "há 22 min"
    ∷ activity "3" "DB \"postgres-prod\" reiniciado" "info" "há 1h"
    ∷ activity "4" "Container \"app-api\" atualizado para v2.1" "success" "há 3h"
    ∷ activity "5" "Falha ao criar VM \"gpu-01\" — recursos insuficientes" "error" "há 5h"
    ∷ activity "6" "Cluster \"prod-cluster\" escalado para 5 nodes" "success" "há 1d"
    ∷ []

pub record ResourceUsage : Type 0 where
  pub cpu : ℕ
  pub ram : ℕ
  pub storage : ℕ
  pub network : ℕ

abbrev pub resource_usage : ResourceUsage
resource_usage = record { cpu = 42; ram = 61; storage = 35; network = 18 }
