-- ===== src/Spa/Handler/Starting.antt =====
-- internal/spa/handler.go: what Start logs once the socket is bound. Its sends do not wait for room
-- in the log channel; these are the lines where there is room.
use phantom_grid.Prelude.{List, [], ◌∷◌, ◌++◌, if◌then◌else◌, is_empty, length}
use phantom_grid.Prelude.Bytes.{Bytes, codes, decimal}
use phantom_grid.Config.Spa.{SpaMode, static, dynamic, asymmetric, other}
use phantom_grid.Spa.Handler.{HandlerConfig}

unfoldable pub mode_text : SpaMode → Bytes
mode_text static = codes "static"
mode_text dynamic = codes "dynamic"
mode_text asymmetric = codes "asymmetric"
mode_text (other m) = m

abbrev token_lines : Bytes → List Bytes
token_lines token =
    if is_empty token
    then []
    else (codes "[SPA] Static token configured (length: " ++ (decimal (length token) ++ codes ")"))
      ∷ []

unfoldable pub start_lines : HandlerConfig → List Bytes
start_lines h =
    codes "[SPA] User-space handler started on port 1337"
    ∷ (codes "[SPA] Mode: " ++ mode_text h.spa_config.mode)
    ∷ (token_lines h.static_token ++ (codes "[SPA] Handler ready to receive packets" ∷ []))
