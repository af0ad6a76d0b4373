-- ===== src/Http.antt =====
-- What the middleware sees of `net/http`: a request with the context values that the program
-- stores, a response writer as a value, handlers and middleware as functions on them; and
-- error.go, whose page template and JSON encoder are parameters.
use goserver.Common.{
  Option, [], List, ℕ, Bool, none, some, if◌then◌else◌, leb, ◌&&◌, ◌++◌, ◌∷◌, ltb, not, ◌==◌,
}
use goserver.Text.{Str, codes, str_eq}
use goserver.Maps.{lookup, insert, delete}

pub record IdempotencyScope : Type 0 where
  pub tenant : Str
  pub subject : Str

-- `Config` holds arbitrary values; only its string entry "domain" is read.
pub record Tenant : Type 0 where
  pub domain : Option Str
  pub id : Str
  pub name : Str

-- The context values, each absent until a middleware stores it.
pub record Context : Type 0 where
  pub params : Option (List (Str × Str))
  pub request_id : Option Str
  pub lang : Option Str
  pub is_bot : Option Bool
  pub is_ai : Option Bool
  pub tenant : Option Tenant
  pub scope : Option IdempotencyScope

pub record Request : Type 0 where
  pub method : Str
  pub path : Str
  pub raw_path : Str
  pub raw_query : Str
  pub host : Str
  pub tls : Bool
  pub headers : List (Str × Str)
  pub query : List (Str × Str)
  pub content_length : Option ℕ
  pub body : Str
  pub remote_addr : Str
  pub context : Context

-- What `ErrorNotifier` is called with.
pub record Notice : Type 0 where
  pub code : ℕ
  pub message : Str

pub record Writer : Type 0 where
  pub headers : List (Str × List Str)
  pub status : Option ℕ
  pub body : Str
  pub notices : List Notice

abbrev pub Handler : Type 0
Handler = Request → Writer → Writer

abbrev pub Middleware : Type 0
Middleware = Handler → Handler

abbrev pub fresh : Writer
fresh = record { headers = []; status = none; body = []; notices = [] }

-- `r.Header.Get(key)` and `r.URL.Query().Get(key)`
unfoldable pub get : Str → List (Str × Str) → Str
get key m = elim (lookup key m) [ none ↦ [] | some v ↦ v ]

-- `w.Header().Set(key, value)`; keys are written in their canonical form
unfoldable pub set_header : Str → Str → Writer → Writer
set_header key value w = record w { headers = insert key (value ∷ []) w.headers }

-- Informational responses, all but 101.
abbrev pub is_informational : ℕ → Bool
is_informational code = leb 100 code && ltb code 200 && not (code == 101)

-- The first status that is written counts, informational responses aside.
unfoldable pub write_header : ℕ → Writer → Writer
write_header code w =
    if is_informational code
    then w
    else elim w.status [ none ↦ record w { status = some code } | some _ ↦ w ]

-- What `net/http` refuses of a body, with status 204 or 304 or beyond a Content-Length, is kept.
unfoldable pub write : Str → Writer → Writer
write s w = let w' = write_header 200 w in record w' { body = w'.body ++ s }

-- `http.Error`
unfoldable pub http_error : Str → ℕ → Writer → Writer
http_error message code w =
    let bare = record w { headers = delete (codes "Content-Length") w.headers } in
    let typed =
      set_header (codes "X-Content-Type-Options") (codes "nosniff")
        (set_header (codes "Content-Type") (codes "text/plain; charset=utf-8") bare) in
    write (message ++ 10 ∷ []) (write_header code typed)

-- `http.Redirect` to an absolute URL
unfoldable pub http_redirect : Str → ℕ → Writer → Writer
http_redirect url code w = write_header code (set_header (codes "Location") url w)

pub record ErrorPageData : Type 0 where
  pub status_text : Str
  pub message : Str
  pub request_id : Str
  pub status_code : ℕ

-- `html/template`, `encoding/json`, `http.StatusText` and the report that `NewError` builds from
-- the call stack; `page` is `none` where the template fails.
pub record Renderer : Type 0 where
  pub page : ErrorPageData → Option Str
  pub json : ErrorPageData → Str
  pub status_text : ℕ → Str
  pub report : ErrorPageData → Str
  pub has_notifier : Bool

-- `GetRequestID`
unfoldable pub get_request_id : Context → Str
get_request_id c = elim c.request_id [ none ↦ codes "unknown-id" | some id ↦ id ]

module _ (rd : Renderer) where
  unfoldable pub error_data : Request → ℕ → Str → ErrorPageData
  error_data r code message = record {
    status_text = rd.status_text code;
    message = message;
    request_id = get_request_id r.context;
    status_code = code;
  }

  -- the last step of both renderers: `s.ErrorNotifier != nil && statusCode >= 500`
  unfoldable pub notify : ErrorPageData → Writer → Writer
  notify d w =
      if rd.has_notifier && leb 500 d.status_code
      then record w {
        notices = w.notices ++ record { code = d.status_code; message = rd.report d } ∷ [];
      }
      else w

  unfoldable pub render_error_json : Request → ℕ → Str → Writer → Writer
  render_error_json r code message w =
      let d = error_data r code message in
      let typed = set_header (codes "Content-Type") (codes "application/json; charset=utf-8") w in
      notify d (write (rd.json d) (write_header code typed))

  -- Only a GET request gets the page. The collapsing of white space is part of `page`.
  unfoldable pub render_error : Request → ℕ → Str → Writer → Writer
  render_error r code message w =
      let d = error_data r code message in
      let typed =
        write_header code
          (set_header (codes "Content-Type") (codes "text/html; charset=utf-8") w) in
      if str_eq r.method (codes "GET")
      then elim (rd.page d) [
        | none ↦ http_error (rd.status_text code) code typed
        | some html ↦ notify d (write html typed)
      ]
      else render_error_json r code message w
