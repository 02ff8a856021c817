-- ===== src/Config/Laws/Normal.antt =====
-- `normalize`: what it guarantees, when it fails, and that a normal configuration is left as it is.
use ubuntu_daemon.Base.{
  ℕ, ◌≤◌, ◌≡◌, ◌≢◌, ◌↔◌, ◌⊎◌, inl, inr, refl, true, false, [], ◌∷◌, ◌++◌, arith, Text, ok, is_ok,
  Bool-cases,
}
use mathlib.Core.Path.{subst}
use ubuntu_daemon.Base.Int.{ℤ, pos, ◌≤ℤ◌}
use ubuntu_daemon.Text.{lit}
use ubuntu_daemon.Config.{
  CloudConfig, OpenClawConfig, RemoteCmdConfig, VideoConfig, Config, positive_or, at_least, text_or,
  normalize_cloud, normalize_openclaw, normalize_remote, normalize_video, normalized, normalize,
  abs_path, is_abs, clean, join_paths, dir,
}

abbrev pub IsPositive : ℤ → Type 0
IsPositive v = pos 1 ≤ℤ v

pub record CloudIsBounded (c : CloudConfig) : Type 0 where
  pub connect : IsPositive c.connect_timeout_sec
  pub ping : IsPositive c.ping_interval_sec
  pub reconnect : IsPositive c.reconnect_min_sec
  pub ordered : c.reconnect_min_sec ≤ℤ c.reconnect_max_sec

pub record OpenClawIsBounded (c : OpenClawConfig) : Type 0 where
  pub restart : IsPositive c.restart_timeout_sec
  pub reply : IsPositive c.reply_resolve_timeout_sec
  pub health : IsPositive c.health_check_timeout_sec

pub record RemoteIsBounded (c : RemoteCmdConfig) : Type 0 where
  pub default : IsPositive c.default_timeout_sec
  pub ordered : c.default_timeout_sec ≤ℤ c.max_timeout_sec
  pub output : IsPositive c.max_output_bytes

pub record VideoIsBounded (c : VideoConfig) : Type 0 where
  pub create : IsPositive c.create_timeout_sec
  pub query : IsPositive c.query_timeout_sec
  pub poll : IsPositive c.poll_interval_sec
  pub task : IsPositive c.task_timeout_sec
  pub download : IsPositive c.download_timeout_sec
  pub duration : IsPositive c.default_duration
  pub provider : c.provider ≢ []
  pub api : c.api_base_url ≢ []
  pub model : c.default_model ≢ []
  pub resolution : c.default_resolution ≢ []

pub record IsBounded (c : Config) : Type 0 where
  pub device : c.device_id ≢ []
  pub url : c.cloud.ws_url ≢ []
  pub cloud : CloudIsBounded c.cloud
  pub openclaw : OpenClawIsBounded c.openclaw
  pub remote : RemoteIsBounded c.remote_command
  pub video : VideoIsBounded c.video

abbrev pub IsRooted : Text → Type 0
IsRooted p = (p ≡ []) ⊎ (is_abs p ≡ true)

pub record HasRootedPaths (c : Config) : Type 0 where
  pub work : IsRooted c.openclaw.work_dir
  pub env : IsRooted c.openclaw.env_file
  pub json : IsRooted c.openclaw.json_config_file
  pub temp : IsRooted c.video.temp_dir
  pub state : IsRooted c.store.state_file

cloud-bounded : (c : CloudConfig) → CloudIsBounded (normalize_cloud c)
unfolding normalize_cloud
cloud-bounded c = ground arith

openclaw-bounded : (b : Text) (c : OpenClawConfig) → OpenClawIsBounded (normalize_openclaw b c)
unfolding normalize_openclaw
openclaw-bounded b c = ground arith

remote-bounded : (c : RemoteCmdConfig) → RemoteIsBounded (normalize_remote c)
unfolding normalize_remote
remote-bounded c = ground arith

text_or-ne-nil : (s d : Text) → d ≢ [] → text_or s d ≢ []
text_or-ne-nil s d h = ground arith

positive_or_lem : (v : ℤ) (d : ℕ) → IsPositive v → positive_or v d ≡ v
positive_or_lem v d h = ground arith

at_least_lem : (low v : ℤ) → low ≤ℤ v → at_least low v ≡ v
at_least_lem low v h = ground arith

text_or_lem : (s d : Text) → s ≢ [] → text_or s d ≡ s
text_or_lem s d h = ground arith

positive_or_pos : (v : ℤ) (d : ℕ) → 1 ≤ d → IsPositive (positive_or v d)
positive_or_pos v d h = ground arith

video-bounded : (b : Text) (c : VideoConfig) → VideoIsBounded (normalize_video b c)
unfolding normalize_video lit
video-bounded b c = record {
  create = positive_or_pos c.create_timeout_sec 10 (omega arith);
  query = positive_or_pos c.query_timeout_sec 10 (omega arith);
  poll = positive_or_pos c.poll_interval_sec 5 (omega arith);
  task = positive_or_pos c.task_timeout_sec 180 (omega arith);
  download = positive_or_pos c.download_timeout_sec 120 (omega arith);
  duration = positive_or_pos c.default_duration 6 (omega arith);
  provider = text_or-ne-nil c.provider _ (cc);
  api = text_or-ne-nil c.api_base_url _ (cc);
  model = text_or-ne-nil c.default_model _ (cc);
  resolution = text_or-ne-nil c.default_resolution _ (cc);
}

normalize-eq-ok :
    (path : Text) (c c' : Config)
    → normalize path c ≡ ok c'
    → (c.device_id ≢ []) × (c.cloud.ws_url ≢ []) × (normalized path c ≡ c')
unfolding normalize
normalize-eq-ok path c c' h = ground arith

normalized-IsBounded :
    (path : Text) (c : Config)
    → c.device_id ≢ []
    → c.cloud.ws_url ≢ []
    → IsBounded (normalized path c)
unfolding normalized
normalized-IsBounded path c d u = record {
  device = d;
  url = unfold normalize_cloud in u;
  cloud = cloud-bounded c.cloud;
  openclaw = openclaw-bounded (dir path) c.openclaw;
  remote = remote-bounded c.remote_command;
  video = video-bounded (dir path) c.video;
}

-- A configuration that `normalize` returns has every bound: all timeouts positive, the reconnect
-- and command limits ordered, and the required texts present.
pub normalize-IsBounded : (path : Text) (c c' : Config) → normalize path c ≡ ok c' → IsBounded c'
normalize-IsBounded path c c' h =
    let (d, u, e) = normalize-eq-ok path c c' h in
    subst IsBounded e (normalized-IsBounded path c d u)

-- `normalize` fails exactly if the device's id or the cloud's address is missing.
pub normalize_fails_iff :
    (path : Text) (c : Config)
    → (is_ok (normalize path c) ≡ false) ↔ ((c.device_id ≡ []) ⊎ (c.cloud.ws_url ≡ []))
unfolding normalize
normalize_fails_iff path c = ground arith

is_abs-clean : (p : Text) → is_abs p ≡ true → is_abs (clean p) ≡ true
unfolding clean is_abs
is_abs-clean p h = rw (h, clean) refl

is_abs-join_paths : (b v : Text) → is_abs b ≡ true → is_abs (join_paths b v) ≡ true
unfolding join_paths is_abs
is_abs-join_paths [] v h = ground arith
is_abs-join_paths (c ∷ b) [] h = is_abs-clean (c ∷ b) h
is_abs-join_paths (c ∷ b) (d ∷ v) h = is_abs-clean (c ∷ (b ++ (b'/' ∷ (d ∷ v)))) h

abs_path-IsRooted : (b v : Text) → is_abs b ≡ true → IsRooted (abs_path b v)
unfolding abs_path
abs_path-IsRooted b [] h = inl refl
abs_path-IsRooted b (c ∷ v) h = elim (Bool-cases (is_abs (c ∷ v))) [
  | inl rooted ↦ inr (rw (rooted, abs_path) rooted)
  | inr relative ↦ inr (
      rw (relative, abs_path) (is_abs-clean (join_paths b (c ∷ v)) (is_abs-join_paths b (c ∷ v) h)))
]

abs_path_of_IsRooted : (b v : Text) → IsRooted v → abs_path b v ≡ v
unfolding abs_path
abs_path_of_IsRooted b v (inl e) = ground arith
abs_path_of_IsRooted b v (inr h) = ground arith

-- With an absolute path of the configuration file, every path in the result is absolute or empty.
pub normalize-HasRootedPaths :
    (path : Text) (c c' : Config)
    → is_abs (dir path) ≡ true
    → normalize path c ≡ ok c'
    → HasRootedPaths c'
unfolding normalized normalize_openclaw normalize_video
normalize-HasRootedPaths path c c' a h =
    let (d, u, e) = normalize-eq-ok path c c' h in
    subst HasRootedPaths e (record {
      work = abs_path-IsRooted (dir path) c.openclaw.work_dir a;
      env = abs_path-IsRooted (dir path) c.openclaw.env_file a;
      json = abs_path-IsRooted (dir path) c.openclaw.json_config_file a;
      temp = abs_path-IsRooted (dir path) c.video.temp_dir a;
      state = abs_path-IsRooted (dir path) c.store.state_file a;
    })

cloud-fixed : (c : CloudConfig) → CloudIsBounded c → normalize_cloud c ≡ c
unfolding normalize_cloud
cloud-fixed c h = ground arith

openclaw-fixed :
    (b : Text) (c : OpenClawConfig)
    → OpenClawIsBounded c
    → IsRooted c.work_dir
    → IsRooted c.env_file
    → IsRooted c.json_config_file
    → normalize_openclaw b c ≡ c
unfolding normalize_openclaw
openclaw-fixed b c h w e j = ground (
  arith,
  abs_path_of_IsRooted b c.work_dir w,
  abs_path_of_IsRooted b c.env_file e,
  abs_path_of_IsRooted b c.json_config_file j,
)

remote-fixed : (c : RemoteCmdConfig) → RemoteIsBounded c → normalize_remote c ≡ c
unfolding normalize_remote
remote-fixed c h = ground arith

video-fixed :
    (b : Text) (c : VideoConfig) → VideoIsBounded c → IsRooted c.temp_dir → normalize_video b c ≡ c
unfolding normalize_video
video-fixed b c h t = simp (
  abs_path_of_IsRooted b c.temp_dir t,
  positive_or_lem c.create_timeout_sec 10 h.create,
  positive_or_lem c.query_timeout_sec 10 h.query,
  positive_or_lem c.poll_interval_sec 5 h.poll,
  positive_or_lem c.task_timeout_sec 180 h.task,
  positive_or_lem c.download_timeout_sec 120 h.download,
  positive_or_lem c.default_duration 6 h.duration,
  text_or_lem c.provider _ h.provider,
  text_or_lem c.api_base_url _ h.api,
  text_or_lem c.default_model _ h.model,
  text_or_lem c.default_resolution _ h.resolution,
)

-- A bounded configuration with absolute paths is left exactly as it is, wherever the file stands.
pub normalize_of_IsBounded :
    (path : Text) (c : Config) → IsBounded c → HasRootedPaths c → normalize path c ≡ ok c
unfolding normalize normalized
normalize_of_IsBounded path c h r = ground (
  arith,
  cloud-fixed c.cloud h.cloud,
  remote-fixed c.remote_command h.remote,
  openclaw-fixed (dir path) c.openclaw h.openclaw r.work r.env r.json,
  video-fixed (dir path) c.video h.video r.temp,
  abs_path_of_IsRooted (dir path) c.store.state_file r.state,
)
