-- ===== src/System/Tests.antt =====
-- A history of a server: a logout, a login and a collection.
use antrea_ui.Base.{none, some, [], ◌∷◌}
use antrea_ui.Session.Types.{Store}
use antrea_ui.Session.Get.{do_gc}
use antrea_ui.Session.Scenarios.{two_users, two_users-IsWellFormed}
use antrea_ui.Authn.Tests.{browser, deployed, go_net, table_cache, cluster}
use antrea_ui.Password.Secret.{in_memory}
use antrea_ui.Password.Tests.{initialized, salting}
use antrea_ui.Credentials.Tests.{decoders}
use antrea_ui.Login.Types.{Visit}
use antrea_ui.Login.Signing.{by_token, serve_login}
use antrea_ui.Login.Ending.{logout}
use antrea_ui.Login.Tests.{server_config, instant, knows_carol, formats, visit}
use antrea_ui.Oidc.Tests.{parts}
use antrea_ui.AntreaSvc.Tests.{client_go}
use antrea_ui.System.Histories.{
  Deployment, ServerStep, Reaches, here, after_step, IsGuarded, Reaches-IsGuarded,
}

abbrev deployment : Deployment
deployment = record {
  net = go_net;
  lru = table_cache;
  out = cluster;
  cfg = server_config;
  auth = deployed;
  rest = client_go;
  back = in_memory;
  hasher = salting;
  decoders = decoders;
  api = knows_carol;
  formats = formats;
  build_logout_url = λ token. none;
  oidc = parts;
}

abbrev logged_out : Visit
logged_out = (logout server_config (λ token. none) go_net deployed browser "" visit).1

abbrev carol_in : Visit
carol_in =
    (serve_login server_config deployed browser instant in_memory salting initialized decoders
      knows_carol formats (by_token (some "carols token")) logged_out).1

abbrev collected : Store
collected = do_gc 30 carol_in.store

history : Reaches deployment two_users (none ∷ some "s3" ∷ none ∷ []) collected
history =
    after_step
      (after_step (after_step here (ServerStep.logs_out browser "" visit)) (
        ServerStep.logs_in browser instant initialized (by_token (some "carols token")) logged_out))
      (ServerStep.collects 30 carol_in.store)

Reaches-IsGuarded_example : IsGuarded deployment two_users (none ∷ some "s3" ∷ none ∷ []) collected
Reaches-IsGuarded_example =
    Reaches-IsGuarded deployment two_users (none ∷ some "s3" ∷ none ∷ []) collected
      two_users-IsWellFormed history
