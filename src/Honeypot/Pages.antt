-- ===== src/Honeypot/Pages.antt =====
-- internal/honeypot/http_handler.go: the other pages of the honeypot's web server.
use phantom_grid.Prelude.{[], ◌∷◌}
use phantom_grid.Prelude.Bytes.{Bytes, codes}
use phantom_grid.Honeypot.Text.{glue, screen, text_lines}

abbrev pub api_users_page : Bytes → Bytes
api_users_page text = glue (
    (screen (
      "HTTP/1.1 200 OK" ∷ "Content-Type: application/json" ∷ "Access-Control-Allow-Origin: *" ∷ ""
      ∷ []))
    ∷ (codes
        "{\"status\":\"ok\",\"data\":[{\"id\":1,\"username\":\"admin\",\"email\":\"admin@server.com\",\"role\":\"administrator\"},{\"id\":2,\"username\":\"user\",\"email\":\"user@server.com\",\"role\":\"user\"}],\"timestamp\":\"")
    ∷ (text)
    ∷ (codes "\"}")
    ∷ [])

abbrev pub api_config_page : Bytes
api_config_page = glue (
    (screen ("HTTP/1.1 200 OK" ∷ "Content-Type: application/json" ∷ "" ∷ []))
    ∷ (codes
        "{\"database\":{\"host\":\"localhost\",\"port\":3306,\"name\":\"production\"},\"api_key\":\"sk_live_51H3ll0W0rld\",\"version\":\"1.2.3\"}")
    ∷ [])

abbrev pub robots_page : Bytes
robots_page = glue (
    (screen ("HTTP/1.1 200 OK" ∷ "Content-Type: text/plain" ∷ "" ∷ []))
    ∷ (codes
        "User-agent: *\nDisallow: /admin/\nDisallow: /private/\nDisallow: /config/\nAllow: /public/")
    ∷ [])

abbrev pub git_page : Bytes
git_page = glue (
    (screen (
      "HTTP/1.1 403 Forbidden" ∷ "Server: nginx/1.18.0 (Ubuntu)" ∷ "Content-Type: text/html" ∷ ""
      ∷ []))
    ∷ (codes "<h1>403 Forbidden</h1><p>You don't have permission to access this resource.</p>")
    ∷ [])

abbrev pub phpinfo_page : Bytes
phpinfo_page = glue (
    (screen
      ("HTTP/1.1 200 OK" ∷ "Server: Apache/2.4.41 (Debian)" ∷ "Content-Type: text/html" ∷ "" ∷ []))
    ∷ (text_lines (
        "<html><head><title>phpinfo()</title></head><body>" ∷ "<h1>PHP Version 7.4.3</h1>"
        ∷ "<p>System: Linux server 5.4.0-74-generic</p>" ∷ "<p>Server API: Apache 2.0 Handler</p>"
        ∷ "<p>Document Root: /var/www/html</p>" ∷ []))
    ∷ (codes "</body></html>")
    ∷ [])

abbrev pub dashboard_page : Bytes
dashboard_page = glue ((screen ("HTTP/1.1 302 Found" ∷ "Location: /login" ∷ "" ∷ [])) ∷ [])

abbrev pub post_page : Bytes
post_page = glue (
    (screen (
      "HTTP/1.1 302 Found" ∷ "Location: /admin/dashboard" ∷ "Set-Cookie: auth_token=invalid; Path=/"
      ∷ "" ∷ []))
    ∷ [])

abbrev pub page_page : Bytes
page_page = glue (
    (screen
      ("HTTP/1.1 200 OK" ∷ "Server: Apache/2.4.41 (Debian)" ∷ "Content-Type: text/html" ∷ "" ∷ []))
    ∷ (codes
        "<html><body><h1>Page Not Found</h1><p>The requested page could not be found.</p></body></html>")
    ∷ [])

abbrev pub not_found_page : Bytes → Bytes
not_found_page text = glue (
    (screen (
      "HTTP/1.1 404 Not Found" ∷ "Server: nginx/1.18.0 (Ubuntu)"
      ∷ "Content-Type: text/html; charset=UTF-8" ∷ "" ∷ []))
    ∷ (text_lines (
        "<!DOCTYPE html>" ∷ "<html>" ∷ "<head>" ∷ "    <title>404 Not Found</title>" ∷ "    <style>"
        ∷ "        body { font-family: Arial, sans-serif; margin: 40px; text-align: center; }"
        ∷ "        h1 { color: #e74c3c; }" ∷ "    </style>" ∷ "</head>" ∷ "<body>"
        ∷ "    <h1>404 Not Found</h1>" ∷ []))
    ∷ (codes "    <p>The requested URL ")
    ∷ (text)
    ∷ (text_lines (
        " was not found on this server.</p>" ∷ "    <p><a href=\"/\">Return to homepage</a></p>"
        ∷ "</body>" ∷ []))
    ∷ (codes "</html>")
    ∷ [])
