-- ===== src/Download/Detection.antt =====
-- What the download page guesses of the visitor's machine: website/src/components/useOsDetection.ts,
-- and detectArchFromNavigator of website/src/components/DownloadSection.tsx.
use shadownet_agent.Common.{
  ℕ, Bool, true, false, ◌&&◌, ◌||◌, Option, none, some, ◌++◌, leb, ltb, if◌then◌else◌,
}
use shadownet_agent.Common.Text.{Text, txt, includes}

pub data DetectedOs : Type 0 where
  android ios windows macos linux raspberrypi unknown : DetectedOs

pub data DetectedDevice : Type 0 where
  mobile desktop unknown : DetectedDevice

pub data DetectedArch : Type 0 where
  amd64 arm64 unknown : DetectedArch

-- The confidence in hundredths.
pub record OsDetection : Type 0 where
  pub os : DetectedOs
  pub device : DetectedDevice
  pub label : Text
  pub confidence : ℕ

-- What the browser tells; the pages are first rendered where there is no navigator.
pub record Navigator : Type 0 where
  pub user_agent : Text
  pub platform : Text
  pub max_touch_points : ℕ

-- Before detection, and on a server.
abbrev pub undetected : OsDetection
undetected = record {
  os = DetectedOs.unknown;
  device = DetectedDevice.unknown;
  label = txt "Unknown";
  confidence = 0;
}

unfoldable pub is_ios : Text → Text → ℕ → Bool
is_ios ua platform points =
    includes ua (txt "iphone")
    || includes ua (txt "ipad")
    || includes ua (txt "ipod")
    || (includes platform (txt "mac") && ltb 1 points)

unfoldable pub is_mobile : Text → Text → ℕ → Bool
is_mobile ua platform points =
    includes ua (txt "android") || is_ios ua platform points || includes ua (txt "mobile")

-- detectFromNavigator; `to_lower` is the engine's `toLowerCase`.
unfoldable pub detect_from_navigator : (Text → Text) → Option Navigator → OsDetection
detect_from_navigator to_lower none = undetected
detect_from_navigator to_lower (some nav) =
    let ua = to_lower nav.user_agent in
    let platform = to_lower nav.platform in
    let device =
      if is_mobile ua platform nav.max_touch_points
      then DetectedDevice.mobile
      else DetectedDevice.desktop in
    if includes ua (txt "android")
    then record { os = android; device = device; label = txt "Android"; confidence = 95 }
    else if is_ios ua platform nav.max_touch_points
    then record { os = ios; device = device; label = txt "iOS"; confidence = 90 }
    else if includes platform (txt "win") || includes ua (txt "windows nt")
    then record { os = windows; device = device; label = txt "Windows"; confidence = 90 }
    else if includes platform (txt "mac") || includes ua (txt "mac os x")
    then record { os = macos; device = device; label = txt "macOS"; confidence = 85 }
    else if includes platform (txt "linux") || includes ua (txt "linux")
    then record { os = linux; device = device; label = txt "Linux"; confidence = 80 }
    else undetected

abbrev pub is_known : DetectedOs → Bool
is_known DetectedOs.unknown = false
is_known _ = true

-- supportsAutoRecommendation
unfoldable pub supports_auto_recommendation : OsDetection → Bool
supports_auto_recommendation d = is_known d.os && leb 60 d.confidence

-- detectArchFromNavigator
unfoldable pub detect_arch_from_navigator : (Text → Text) → Option Navigator → DetectedArch
detect_arch_from_navigator to_lower none = DetectedArch.unknown
detect_arch_from_navigator to_lower (some nav) =
    let full = to_lower nav.user_agent ++ (txt " " ++ to_lower nav.platform) in
    if includes full (txt "aarch64") || includes full (txt "arm64") || includes full (txt "armv8")
    then arm64
    else if includes full (txt "x86_64")
        || includes full (txt "x64")
        || includes full (txt "win64")
        || includes full (txt "amd64")
    then amd64
    else DetectedArch.unknown
