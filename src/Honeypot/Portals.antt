-- ===== src/Honeypot/Portals.antt =====
-- internal/honeypot/http_handler.go: the portals of the honeypot's web server.
use phantom_grid.Prelude.{[], ◌∷◌}
use phantom_grid.Prelude.Bytes.{Bytes, codes}
use phantom_grid.Honeypot.Text.{glue, screen, text_lines}

abbrev pub index_page : Bytes → Bytes
index_page text = glue (
    (screen (
      "HTTP/1.1 200 OK" ∷ "Server: nginx/1.18.0 (Ubuntu)" ∷ "Content-Type: text/html; charset=UTF-8"
      ∷ "Connection: keep-alive" ∷ "X-Powered-By: PHP/7.4.3" ∷ "" ∷ []))
    ∷ (text_lines (
        "<!DOCTYPE html>" ∷ "<html lang=\"en\">" ∷ "<head>" ∷ "    <meta charset=\"UTF-8\">"
        ∷ "    <meta name=\"viewport\" content=\"width=device-width, initial-scale=1.0\">"
        ∷ "    <title>Welcome - Server Management</title>" ∷ "    <style>"
        ∷ "        body { font-family: Arial, sans-serif; margin: 40px; background: #f5f5f5; }"
        ∷ "        .container { background: white; padding: 30px; border-radius: 8px; box-shadow: 0 2px 4px rgba(0,0,0,0.1); }"
        ∷ "        h1 { color: #333; }" ∷ "        .nav { margin: 20px 0; }"
        ∷ "        .nav a { margin-right: 15px; color: #0066cc; text-decoration: none; }"
        ∷ "        .nav a:hover { text-decoration: underline; }" ∷ "    </style>" ∷ "</head>"
        ∷ "<body>" ∷ "    <div class=\"container\">"
        ∷ "        <h1>Welcome to Server Management Portal</h1>"
        ∷ "        <p>System is running normally. All services are operational.</p>"
        ∷ "        <div class=\"nav\">" ∷ "            <a href=\"/admin\">Admin Panel</a>"
        ∷ "            <a href=\"/login\">Login</a>"
        ∷ "            <a href=\"/dashboard\">Dashboard</a>"
        ∷ "            <a href=\"/api\">API</a>" ∷ "        </div>" ∷ []))
    ∷ (codes "        <p>Server Time: ")
    ∷ (text)
    ∷ (text_lines ("</p>" ∷ "    </div>" ∷ "</body>" ∷ []))
    ∷ (codes "</html>")
    ∷ [])

abbrev pub admin_page : Bytes
admin_page = glue (
    (screen (
      "HTTP/1.1 200 OK" ∷ "Server: nginx/1.18.0 (Ubuntu)" ∷ "Content-Type: text/html; charset=UTF-8"
      ∷ "Set-Cookie: session_id=abc123xyz; Path=/; HttpOnly" ∷ "" ∷ []))
    ∷ (text_lines (
        "<!DOCTYPE html>" ∷ "<html>" ∷ "<head>" ∷ "    <title>Administration Panel</title>"
        ∷ "    <style>"
        ∷ "        body { font-family: Arial, sans-serif; margin: 40px; background: #2c3e50; color: white; }"
        ∷ "        .login-box { background: #34495e; padding: 30px; border-radius: 8px; max-width: 400px; margin: 100px auto; }"
        ∷ "        input { width: 100%; padding: 10px; margin: 10px 0; border: none; border-radius: 4px; }"
        ∷ "        button { width: 100%; padding: 12px; background: #3498db; color: white; border: none; border-radius: 4px; cursor: pointer; }"
        ∷ "        button:hover { background: #2980b9; }" ∷ "    </style>" ∷ "</head>" ∷ "<body>"
        ∷ "    <div class=\"login-box\">" ∷ "        <h2>Administration Panel</h2>"
        ∷ "        <form method=\"POST\" action=\"/admin/login\">"
        ∷ "            <input type=\"text\" name=\"username\" placeholder=\"Username\" required>"
        ∷ "            <input type=\"password\" name=\"password\" placeholder=\"Password\" required>"
        ∷ "            <button type=\"submit\">Login</button>" ∷ "        </form>"
        ∷ "        <p style=\"font-size: 12px; color: #95a5a6;\">Forgot password? <a href=\"/admin/reset\" style=\"color: #3498db;\">Reset here</a></p>"
        ∷ "    </div>" ∷ "</body>" ∷ []))
    ∷ (codes "</html>")
    ∷ [])

abbrev pub login_page : Bytes
login_page = glue (
    (screen (
      "HTTP/1.1 200 OK" ∷ "Server: Apache/2.4.41 (Debian)"
      ∷ "Content-Type: text/html; charset=UTF-8" ∷ "" ∷ []))
    ∷ (text_lines (
        "<!DOCTYPE html>" ∷ "<html>" ∷ "<head>" ∷ "    <title>User Login</title>" ∷ "    <style>"
        ∷ "        body { font-family: Arial, sans-serif; margin: 40px; background: #ecf0f1; }"
        ∷ "        .form-container { background: white; padding: 30px; border-radius: 8px; max-width: 350px; margin: 50px auto; box-shadow: 0 2px 4px rgba(0,0,0,0.1); }"
        ∷ "        input { width: 100%; padding: 10px; margin: 10px 0; border: 1px solid #ddd; border-radius: 4px; box-sizing: border-box; }"
        ∷ "        button { width: 100%; padding: 12px; background: #27ae60; color: white; border: none; border-radius: 4px; cursor: pointer; }"
        ∷ "    </style>" ∷ "</head>" ∷ "<body>" ∷ "    <div class=\"form-container\">"
        ∷ "        <h2>User Login</h2>" ∷ "        <form method=\"POST\" action=\"/login/check\">"
        ∷ "            <input type=\"text\" name=\"user\" placeholder=\"Username\" required>"
        ∷ "            <input type=\"password\" name=\"pass\" placeholder=\"Password\" required>"
        ∷ "            <button type=\"submit\">Sign In</button>" ∷ "        </form>" ∷ "    </div>"
        ∷ "</body>" ∷ []))
    ∷ (codes "</html>")
    ∷ [])

abbrev pub wordpress_page : Bytes
wordpress_page = glue (
    (screen (
      "HTTP/1.1 200 OK" ∷ "Server: nginx/1.18.0 (Ubuntu)" ∷ "Content-Type: text/html; charset=UTF-8"
      ∷ "" ∷ []))
    ∷ (text_lines (
        "<!DOCTYPE html>" ∷ "<html>" ∷ "<head>" ∷ "    <title>WordPress Login</title>"
        ∷ "    <style>"
        ∷ "        body { font-family: Arial, sans-serif; margin: 40px; background: #f0f0f1; }"
        ∷ "        .login { background: white; padding: 30px; border-radius: 4px; max-width: 320px; margin: 50px auto; }"
        ∷ "        input { width: 100%; padding: 10px; margin: 10px 0; border: 1px solid #ddd; }"
        ∷ "        button { width: 100%; padding: 12px; background: #0073aa; color: white; border: none; }"
        ∷ "    </style>" ∷ "</head>" ∷ "<body>" ∷ "    <div class=\"login\">"
        ∷ "        <h1>WordPress</h1>" ∷ "        <form method=\"POST\">"
        ∷ "            <input type=\"text\" name=\"log\" placeholder=\"Username or Email\">"
        ∷ "            <input type=\"password\" name=\"pwd\" placeholder=\"Password\">"
        ∷ "            <button type=\"submit\">Log In</button>" ∷ "        </form>" ∷ "    </div>"
        ∷ "</body>" ∷ []))
    ∷ (codes "</html>")
    ∷ [])
