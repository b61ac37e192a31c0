-- ===== src/Server/Response/Guarantees.antt =====
-- What every reply carries, whatever it answers.
use go_pkicmp_ng.Server.Config.{Config}
