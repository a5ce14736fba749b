-- ===== src/Controller/Router.antt =====
-- controller/internal/api/router.go: the table of `NewRouter`, and the choice that `http.ServeMux`
-- makes in it for a path with no percent-encoded character. `CORS` passes all but OPTIONS on.
pub mod Endpoints
use rig_stack.Prelude.{
  String, ◌==◌, Bool, true, false, ◌||◌, Option, none, some, List, [], ◌∷◌, any, if◌then◌else◌,
}
use rig_stack.Prelude.Text.{split_slash}
use rig_stack.Client.Http.{Method, get, post, put, delete, Request}

pub data Segment : Type 0 where
  lit : String → Segment
  wildcard : Segment

pub data Handler : Type 0 where
  list_nodes delete_node list_images deploy_image list_vpcs create_vpc delete_vpc : Handler
  list_instances create_instance start_instance stop_instance delete_instance : Handler
  console metrics health install_script binary : Handler

pub record Route : Type 0 where
  pub method : Method
  pub pattern : List Segment
  pub handler : Handler

abbrev route : Method → List Segment → Handler → Route
route method pattern handler = record { method = method; pattern = pattern; handler = handler }

abbrev v1 : List Segment → List Segment
v1 rest = lit "" ∷ lit "api" ∷ lit "v1" ∷ rest

abbrev of_id : String → List Segment → List Segment
of_id kind rest = v1 (lit kind ∷ wildcard ∷ rest)

abbrev pub routes : List Route
routes =
    route get (v1 (lit "nodes" ∷ [])) list_nodes
    ∷ route delete (of_id "nodes" []) delete_node
    ∷ route get (v1 (lit "images" ∷ [])) list_images
    ∷ route post (of_id "images" (lit "deploy" ∷ [])) deploy_image
    ∷ route get (v1 (lit "vpcs" ∷ [])) list_vpcs
    ∷ route post (v1 (lit "vpcs" ∷ [])) create_vpc
    ∷ route delete (of_id "vpcs" []) delete_vpc
    ∷ route get (v1 (lit "instances" ∷ [])) list_instances
    ∷ route post (v1 (lit "instances" ∷ [])) create_instance
    ∷ route put (of_id "instances" (lit "start" ∷ [])) start_instance
    ∷ route put (of_id "instances" (lit "stop" ∷ [])) stop_instance
    ∷ route delete (of_id "instances" []) delete_instance
    ∷ route get (of_id "instances" (lit "console" ∷ [])) console
    ∷ route get (of_id "instances" (lit "metrics" ∷ [])) metrics
    ∷ route get (v1 (lit "health" ∷ [])) health
    ∷ route get (lit "" ∷ lit "agent" ∷ lit "install.sh" ∷ []) install_script
    ∷ route get (lit "" ∷ lit "agent" ∷ lit "binary" ∷ []) binary
    ∷ []

abbrev same_method : Method → Method → Bool
same_method get get = true
same_method post post = true
same_method put put = true
same_method delete delete = true
same_method _ _ = false

-- The parts that the wildcards take; a wildcard takes one part that is not empty.
unfoldable pub match : List Segment → List String → Option (List String)
match [] [] = some []
match [] (p ∷ ps) = none
match (s ∷ ss) [] = none
match (lit t ∷ ss) (p ∷ ps) = let rest = match ss ps in if t == p then rest else none
match (wildcard ∷ ss) (p ∷ ps) =
    let rest = match ss ps in
    if p == "" then none else elim rest [ none ↦ none | some taken ↦ some (p ∷ taken) ]

-- A route of the method with a pattern that fits.
unfoldable pub fits : Method → List String → Route → Option (Handler × List String)
unfolding match
fits m parts r =
    if same_method r.method m
    then elim (match r.pattern parts) [ none ↦ none | some taken ↦ some (r.handler, taken) ]
    else none

abbrev pub first_of : {A : Type 0} → Option A → Option A → Option A
first_of (some a) rest = some a
first_of none rest = rest

-- No path fits two patterns of one method, so the first that fits is the most specific.
unfoldable pub select : Method → List String → List Route → Option (Handler × List String)
unfolding fits
select m parts [] = none
select m parts (r ∷ rs) = first_of (fits m parts r) (select m parts rs)

-- The choice for the parts of a path. A path with a part "." or ".." is redirected to its clean
-- form, and not served.
unfoldable pub serve : Method → List String → Option (Handler × List String)
unfolding select
serve m parts = if any (λ p. p == "." || p == "..") parts then none else select m parts routes

-- The handler of a request, with what the wildcards of its pattern take.
unfoldable pub dispatch : Request → Option (Handler × List String)
unfolding split_slash serve
dispatch r = serve r.method (split_slash r.path)
