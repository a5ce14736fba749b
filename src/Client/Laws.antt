-- ===== src/Client/Laws.antt =====
-- frontend/src/api/client.ts: what the caller of `req` sees of the controller's answers, and the
-- error of `fmtRam`.
use rig_stack.Prelude.{
  ℕ, ◌+◌, ◌*◌, ◌≤◌, ◌<◌, String, true, some, none, Option, ◌≡◌, ◌≢◌, ◌⊎◌, inl, inr, refl, arith,
  Bool-cases, eqb, leb, ◌<>◌,
}
use rig_stack.Client.Http.{
  Json, Fetched, Response, response, rejected, Parsed, value, unreadable, ok, err, is_ok, req,
  read_json,
}
use rig_stack.Client.Format.{nearest, fmt_ram}
use rig_stack.Prelude.Text.{decimal}
use rig_stack.Controller.Instances.{write_error}

abbrev Answer : Response → Option Json → Type 0
Answer r v =
    ((r.status ≡ 204) × (v ≡ none))
    ⊎ ((r.status ≢ 204) × ((j : Json) × (r.json ≡ value j) × (v ≡ some j)))

parsed :
    (p : Parsed) (v : Option Json) → read_json p ≡ ok v → (j : Json) × (p ≡ value j) × (v ≡ some j)
unfolding read_json
parsed (value j) v h = (j, refl, cc)
parsed (unreadable m) v h = cc

answer :
    (of_null : String) (r : Response) (v : Option Json)
    → req of_null (response r) ≡ ok v
    → is_ok r ≡ true
    → Answer r v
unfolding req
answer of_null r v h good = elim (Bool-cases (eqb r.status 204)) [
  | inl none_sent ↦ inl (ground arith, cc)
  | inr sent ↦ inr (ground arith, parsed r.json v (ground arith))
]

-- A call of `req` succeeds only for a response of status 200 to 299 whose body parses or whose
-- status is 204: with `undefined` for 204, else with the body.
pub req-ok :
    (of_null : String) (f : Fetched) (v : Option Json)
    → req of_null f ≡ ok v
    → (r : Response) × (f ≡ response r)
      × (200 ≤ r.status)
      × (r.status ≤ 299)
      × (((r.status ≡ 204) × (v ≡ none))
          ⊎ ((r.status ≢ 204) × ((j : Json) × (r.json ≡ value j) × (v ≡ some j))))
unfolding req
req-ok of_null (rejected m) v h = cc
req-ok of_null (response r) v h = elim (Bool-cases (is_ok r)) [
  | inl good ↦ (r, refl, ground arith, ground arith, answer of_null r v h good)
  | inr bad ↦ absurd (ground arith)
]

-- Each error that the controller writes, of a status from 300 on, reaches the caller of `req` as an
-- error with its message.
pub req-write_error :
    (of_null : String) (status : ℕ) (message : String)
    → 300 ≤ status
    → req of_null (response (write_error status message)) ≡ err message
unfolding req write_error
req-write_error of_null status message h = ground arith

-- From a gigabyte on, what `fmtRam` prints is a whole number of gigabytes, and is off by at most
-- half a gigabyte; below, it prints the megabytes.
pub fmt_ram_lem :
    (mb : ℕ)
    → ((mb < 1024) × (fmt_ram mb ≡ decimal mb <> " MB"))
      ⊎ ((gb : ℕ) × (fmt_ram mb ≡ decimal gb <> " GB")
          × (1024 * gb ≤ mb + 512)
          × (mb < 1024 * gb + 512))
unfolding fmt_ram
fmt_ram_lem mb = elim (Bool-cases (leb 1024 mb)) [
  | inl big ↦ inr (nearest mb 1024, rw big refl, omega arith, omega arith)
  | inr small ↦ inl (ground arith, rw small refl)
]
