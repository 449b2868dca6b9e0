-- ===== src/Routes/Closing.antt =====
-- The form of aurweb/routers/requests.py that closes a request by hand. It does not look at the status
-- of the request.
use aurweb.Prelude.{
  ℕ, false, String, Option, none, some, List, [], ◌∷◌, ◌≡◌, refl, ◌==◌, if◌then◌else◌, find?, holds,
  update_where, arith,
}
use aurweb.Models.{User, Db, PackageRequest, Request, rejected, request_close_notification, send}
use aurweb.Creds.{pkgreq_close, has_credential, cred_filters, is_elevated}
use aurweb.Requests.{closed_by}
use aurweb.Routes.{Response, redirect, page, or_404}

abbrev pub request_of_id : ℕ → Db → Option PackageRequest
request_of_id id db = find? (λ r. r.id == id) db.requests

-- `approved = [pkgreq.User]`
abbrev pub filer : Option ℕ → List ℕ
filer none = []
filer (some u) = u ∷ []

abbrev pub close_by_hand : Request → String → Db → PackageRequest → Response × Db
close_by_hand req comments db r =
    if has_credential req.user pkgreq_close (filer r.users_id)
    then (
      redirect "/requests",
      send (request_close_notification req.user.id r.id rejected ∷ []) (record db {
        requests = update_where (λ q. q.id == r.id) (closed_by req rejected comments) db.requests;
      }),
    )
    else (redirect "/", db)

unfoldable pub request_close_post : Request → ℕ → String → Db → Response × Db
request_close_post req id comments db =
    or_404 (request_of_id id db) db (close_by_hand req comments db)

-- The page of the form.
abbrev pub show_close : Request → PackageRequest → Response
show_close req r =
    if is_elevated req.user
    then page "requests/close.html" 200
    else if holds r.users_id req.user.id
    then page "requests/close.html" 200
    else redirect "/"

unfoldable pub request_close : Request → ℕ → Db → Response
request_close req id db = (or_404 (request_of_id id db) db (λ r. (show_close req r, db))).0

not_approved :
    (u : User) (o : Option ℕ)
    → is_elevated u ≡ false
    → holds o u.id ≡ false
    → has_credential u pkgreq_close (filer o) ≡ false
unfolding has_credential is_elevated cred_filters
not_approved u none plain other = plain
not_approved u (some v) plain other = ground (arith, plain, other)

-- Of users that are not elevated only the one that filed a request can close it: for any other, the
-- post changes nothing.
pub request_close_post-stranger :
    (req : Request) (id : ℕ) (comments : String) (r : PackageRequest) (db : Db)
    → request_of_id id db ≡ some r
    → is_elevated req.user ≡ false
    → holds r.users_id req.user.id ≡ false
    → (request_close_post req id comments db).1 ≡ db
unfolding request_close_post
request_close_post-stranger req id comments r db found plain other =
    rw (found, not_approved req.user r.users_id plain other) refl
