-- ===== src/Tests/Polling.antt =====
-- A credential that meets GitHub's rate limit.
use symphonika.Base.{true, false, none, some, String, List, [], ◌∷◌, ◌≡◌, refl, arith}
use symphonika.Base.Lists.{here}
use symphonika.Base.Maps.{Dict}
use symphonika.Base.Texts.{lower_case}
use symphonika.Backoff.{
  PollReport, Polled, resolve_env_backed_value, is_rate_limit_error, project_poll_identity_key,
  is_pollable, engage,
}
use symphonika.Backoff.Window.{Call, asks, asks_all, engages, calls, Names, refused_in_window}
use symphonika.Backoff.Lapse.{polled_again}

abbrev env : Dict String
env = ("GITHUB_TOKEN", "secret") ∷ []

abbrev tools : Polled
tools = record {
  name = "tools";
  tracker = record {
    repository = record { owner = "Me"; repo = "tools" };
    token = "$GITHUB_TOKEN";
  };
}

abbrev site : Polled
site = record {
  name = "site";
  tracker = record { repository = record { owner = "me"; repo = "site" }; token = "$GITHUB_TOKEN" };
}

abbrev limited : PollReport
limited = record {
  error = some "GET /issues: API Rate Limit exceeded";
  name = "tools";
  ok = false;
  repository = record { owner = "me"; repo = "tools" };
}

abbrev clean : PollReport
clean = record {
  error = none;
  name = "site";
  ok = true;
  repository = record { owner = "me"; repo = "site" };
}

limited-Names : Names env "secret" limited tools
unfolding is_rate_limit_error resolve_env_backed_value lower_case project_poll_identity_key
limited-Names = record { is_limit = refl; same_key = refl; resolves = refl }

site-resolves : resolve_env_backed_value site.tracker.token env ≡ some "secret"
unfolding resolve_env_backed_value
site-resolves = refl

abbrev between : List Call
between =
    asks tools 2000
    ∷ engages (clean ∷ []) (site ∷ []) 3000
    ∷ asks_all (tools ∷ site ∷ []) 250000
    ∷ []

refused_in_window_example :
    (is_pollable env site 300999
      (calls env between (engage env (limited ∷ []) (tools ∷ site ∷ []) 1000 []).0)).1
    ≡ false
refused_in_window_example =
    refused_in_window env (limited ∷ []) (tools ∷ site ∷ []) 1000 [] limited tools site "secret"
      between 300999 here here limited-Names site-resolves
      (omega arith, omega arith, (omega arith, omega arith, (omega arith, omega arith, tt)))
      (omega arith)

abbrev earlier : List Call
earlier = engages (limited ∷ []) (tools ∷ site ∷ []) 1000 ∷ asks site 1500 ∷ []

polled_again_example : (is_pollable env site 301500 (calls env earlier [])).1 ≡ true
polled_again_example =
    polled_again env earlier 1500 301500 site (omega arith, (omega arith, tt)) (omega arith)
