-- ===== src/Protect.antt =====
-- protect.go, security.go, header.go and detector.go: filters on the user agent and the path,
-- security headers, and the classes of clients. The case-insensitive patterns are literal words.
pub mod Filters
use goserver.Common.{
  map, Bool, List, Option, [], any, false, if◌then◌else◌, leb, ltb, none, not, some, true, ℕ, ◌&&◌,
  ◌++◌, ◌==◌, ◌||◌, ◌∷◌,
}
use goserver.Text.{Str, codes, contains, has_suffix, itoa, str_eq, to_lower}
use goserver.Maps.{lookup}
use goserver.Http.{
  Handler, Middleware, Renderer, Request, Writer, get, render_error, set_header, write,
  write_header,
}

-- A pattern of `OutdatedBrowserMiddleware`: bytes given by tests, to be found anywhere.
abbrev pub Glob : Type 0
Glob = List (ℕ → Bool)

unfoldable pub glob_prefix : Glob → Str → Bool
glob_prefix [] s = true
glob_prefix (t ∷ ts) [] = false
glob_prefix (t ∷ ts) (c ∷ s) = t c && glob_prefix ts s

unfoldable pub glob_found : Glob → Str → Bool
glob_found g [] = glob_prefix g []
glob_found g (c ∷ s) = glob_prefix g (c ∷ s) || glob_found g s

abbrev pub literal : Str → Glob
literal s = map (λ d c. c == d) s

abbrev pub one_of : ℕ → ℕ → Glob
one_of lo hi = (λ c. leb lo c && leb c hi) ∷ []

-- `MSIE [1-9]\.` and the six others
abbrev pub outdated_patterns : List Glob
outdated_patterns =
    (literal (codes "MSIE ") ++ (one_of b'1' b'9' ++ literal (codes ".")))
    ∷ (literal (codes "Firefox/")
        ++ (one_of b'1' b'4' ++ (one_of b'0' b'9' ++ literal (codes "."))))
    ∷ (literal (codes "Chrome/") ++ (one_of b'1' b'4' ++ (one_of b'0' b'9' ++ literal (codes "."))))
    ∷ (literal (codes "Safari/") ++ (one_of b'1' b'5' ++ literal (codes ".")))
    ∷ (literal (codes "Opera/") ++ (one_of b'1' b'9' ++ literal (codes ".")))
    ∷ (literal (codes "Android ") ++ (one_of b'1' b'4' ++ literal (codes ".")))
    ∷ (literal (codes "iPhone OS ") ++ (one_of b'1' b'8' ++ literal (codes "_")))
    ∷ []

unfoldable pub outdated_browser_middleware : Middleware
outdated_browser_middleware next r w =
    let user_agent = get (codes "User-Agent") r.headers in
    if str_eq user_agent []
    then next r w
    else if any (λ g. glob_found g user_agent) outdated_patterns
    then write (codes "Your browser is outdated. Please upgrade to a modern browser.") (
        write_header 426 (
          set_header (codes "Upgrade") (codes "modern browser")
            (set_header (codes "Content-Type") (codes "text/plain; charset=utf-8") w)))
    else next r w

abbrev pub malicious_patterns : List Str
malicious_patterns = map codes (
    "python-requests" ∷ "go-http-client" ∷ "curl" ∷ "wget" ∷ "perl" ∷ "nmap" ∷ "sqlmap" ∷ "wpscan"
    ∷ "nikto" ∷ "masscan" ∷ "zgrab" ∷ "acunetix" ∷ "netsparker" ∷ "burp" ∷ "ahrefsbot"
    ∷ "semrushbot" ∷ "mj12bot" ∷ "dotbot" ∷ "headlesschrome" ∷ "phantomjs" ∷ "scrapy" ∷ [])

unfoldable pub malicious_request_middleware : Renderer → Middleware
malicious_request_middleware rd next r w =
    let user_agent = get (codes "User-Agent") r.headers in
    if str_eq user_agent []
    then render_error rd r 403 (codes "Forbidden: A User-Agent header is required.") w
    else if any (λ p. contains (to_lower user_agent) p) malicious_patterns
    then render_error rd r 403 (codes "Forbidden: Your request has been blocked.") w
    else next r w

abbrev pub blocked_paths : List Str
blocked_paths = map codes (
    "wp-login.php" ∷ "wp-admin" ∷ "wp-content" ∷ "wp-includes" ∷ "xmlrpc.php" ∷ "phpmyadmin"
    ∷ "/telescope/" ∷ "/swagger/" ∷ "/swagger-ui.html" ∷ "/actuator/env" ∷ "pma" ∷ "adminer"
    ∷ "admin.php" ∷ "login.php" ∷ "index.php" ∷ "config.php" ∷ "setup.php" ∷ "install.php"
    ∷ "installer.php" ∷ "eval-stdin.php" ∷ ".env" ∷ ".git" ∷ ".git/config" ∷ ".gitignore" ∷ ".svn"
    ∷ ".hg" ∷ ".aws" ∷ ".aws/credentials" ∷ ".docker" ∷ "docker-compose.yml" ∷ "docker-compose.yaml"
    ∷ "dockerfile" ∷ ".npmrc" ∷ ".yarnrc" ∷ ".ssh" ∷ "id_rsa" ∷ "id_dsa" ∷ ".aws/credentials"
    ∷ "/etc/passwd" ∷ "/etc/shadow" ∷ "/proc/self/environ" ∷ "/proc/version" ∷ "/.well-known/"
    ∷ ".log" ∷ ".log" ∷ ".bak" ∷ ".old" ∷ ".backup" ∷ ".sql" ∷ ".sqlite" ∷ ".db" ∷ ".tar" ∷ ".rar"
    ∷ ".7z" ∷ "eval-stdin.php" ∷ "shell.php" ∷ "cmd.php" ∷ "upload.php" ∷ "backdoor" ∷ "cgi-bin"
    ∷ ".htaccess" ∷ ".htpasswd" ∷ ".." ∷ "%2e%2e" ∷ [])

abbrev pub blocked_extensions : List Str
blocked_extensions = map codes (
    ".php" ∷ ".php5" ∷ ".phtml" ∷ ".phar" ∷ ".asp" ∷ ".aspx" ∷ ".ascx" ∷ ".asmx" ∷ ".ashx" ∷ ".jsp"
    ∷ ".jspx" ∷ ".do" ∷ ".action" ∷ ".cgi" ∷ ".pl" ∷ ".py" ∷ ".fcgi" ∷ ".rb" ∷ ".rhtml" ∷ ".bak"
    ∷ ".old" ∷ ".backup" ∷ ".sql" ∷ ".sqlite" ∷ ".db" ∷ ".tar" ∷ ".zip" ∷ ".rar" ∷ ".7z" ∷ ".sh"
    ∷ ".exe" ∷ ".dll" ∷ [])

unfoldable pub block_malicious_paths_middleware : Renderer → Middleware
block_malicious_paths_middleware rd next r w =
    let request_path = to_lower r.path in
    if any (λ p. contains request_path p) blocked_paths
    then render_error rd r 404 (rd.status_text 404) w
    else if any (λ ext. has_suffix request_path ext) blocked_extensions
    then render_error rd r 404 (rd.status_text 404) w
    else next r w

pub record SecurityOptions : Type 0 where
  pub frame_options : Str
  pub csp : Str
  pub referrer_policy : Str
  pub hsts_max_age : ℕ
  pub hsts_include_sub : Bool
  pub hsts_preload : Bool
  pub xss_protection : Bool
  pub content_type_no_sniff : Bool

abbrev pub default_security_options : SecurityOptions
default_security_options = record {
  frame_options = codes "DENY";
  csp = [];
  referrer_policy = codes "strict-origin-when-cross-origin";
  hsts_max_age = 31536000;
  hsts_include_sub = true;
  hsts_preload = false;
  xss_protection = true;
  content_type_no_sniff = true;
}

-- the value of Strict-Transport-Security
unfoldable pub hsts_value : SecurityOptions → Str
hsts_value o =
    let age = codes "max-age=" ++ itoa o.hsts_max_age in
    let sub = if o.hsts_include_sub then age ++ codes "; includeSubDomains" else age in
    if o.hsts_preload then sub ++ codes "; preload" else sub

abbrev set_if : Bool → Str → Str → Writer → Writer
set_if b key v w = if b then set_header key v w else w

unfoldable pub security_middleware : SecurityOptions → Middleware
security_middleware o next r w =
    let w1 = set_if (ltb 0 o.hsts_max_age) (codes "Strict-Transport-Security") (hsts_value o) w in
    let w2 = set_if o.xss_protection (codes "X-Xss-Protection") (codes "1; mode=block") w1 in
    let w3 = set_if o.content_type_no_sniff (codes "X-Content-Type-Options") (codes "nosniff") w2 in
    let w4 =
      set_if (not (str_eq o.frame_options [])) (codes "X-Frame-Options") o.frame_options w3 in
    let w5 = set_if (not (str_eq o.csp [])) (codes "Content-Security-Policy") o.csp w4 in
    let w6 =
      set_if (not (str_eq o.referrer_policy [])) (codes "Referrer-Policy") o.referrer_policy w5 in
    next r w6

-- `SetHeaders` and `MergeHeaders`, over a map's entries
unfoldable pub set_headers : List (Str × Str) → Writer → Writer
set_headers [] w = w
set_headers ((k, v) ∷ hs) w = set_headers hs (if str_eq k [] then w else set_header k v w)

unfoldable pub merge_headers : List (Str × Str) → Writer → Writer
merge_headers [] w = w
merge_headers ((k, v) ∷ hs) w =
    merge_headers hs (elim (lookup k w.headers) [ none ↦ set_header k v w | some _ ↦ w ])

abbrev pub known_bots : List Str
known_bots = map codes (
    "googlebot" ∷ "bingbot" ∷ "slurp" ∷ "duckduckbot" ∷ "baiduspider" ∷ "yandexbot"
    ∷ "facebookexternalhit" ∷ "twitterbot" ∷ "linkedinbot" ∷ [])

abbrev pub known_ai : List Str
known_ai = map codes (
    "chatgpt" ∷ "gptbot" ∷ "claude" ∷ "perplexity" ∷ "anthropic-ai" ∷ "python-requests" ∷ "curl"
    ∷ [])

unfoldable pub bot_and_ai_detection_middleware : Middleware
bot_and_ai_detection_middleware next r w =
    let ua = to_lower (get (codes "User-Agent") r.headers) in
    let bot = any (λ b. contains ua b) known_bots in
    let ai = any (λ a. contains ua a) known_ai in
    next (record r { context = record (r.context) { is_bot = some bot; is_ai = some ai } }) w

-- `IsBot` and `IsAi`
abbrev pub flag : Option Bool → Bool
flag none = false
flag (some b) = b

unfoldable pub get_client_type : Request → Str
get_client_type r =
    if flag r.context.is_ai
    then codes "ai"
    else if flag r.context.is_bot
    then codes "bot"
    else codes "human"
