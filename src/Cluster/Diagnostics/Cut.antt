-- ===== src/Cluster/Diagnostics/Cut.antt =====
-- A value that is cut inside a token.
use wu_kong_easy_sdk_csharp.Python.Text.Search.{Text}
