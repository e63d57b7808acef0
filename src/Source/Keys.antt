-- ===== src/Source/Keys.antt =====
-- `LPushAPPKey` and `LPushPlatform` of src/app/lpushSource.cpp: the keys under which a connection is
-- entered in the store. `decimal` is what `sprintf("%d", …)` prints.
use linkedon_push.Common.{ℕ, [], ◌++◌, if◌then◌else◌, Bytes, codes, contains}

pub record AppKey : Type 0 where
  pub app_key : Bytes
  pub key : Bytes
  pub value : Bytes

pub record Platform : Type 0 where
  pub platform_key : Bytes
  pub key : Bytes
  pub value : Bytes

-- The part of the key that the client's flag chooses: the first of the five digits that occurs.
unfoldable pub platform_part : Bytes → Bytes
platform_part platform =
    if contains (codes "1") platform
    then codes "IOS_"
    else if contains (codes "2") platform
    then codes "ANDROID_"
    else if contains (codes "3") platform
    then codes "WIN_PHONE_"
    else if contains (codes "4") platform
    then codes "WIN_PC_"
    else if contains (codes "5") platform
    then codes "WEB_"
    else []

module _ (decimal : ℕ → Bytes) where
  unfoldable pub make_app_key : Bytes → Bytes → Bytes → ℕ → AppKey
  make_app_key app_id uid ip port = record {
    app_key = codes "USER_APPKEY_ZSET_" ++ app_id;
    key = uid;
    value = ip ++ (codes ":" ++ decimal port);
  }

  unfoldable pub make_platform : Bytes → Bytes → Bytes → Bytes → ℕ → Platform
  make_platform platform app_id uid ip port = record {
    platform_key = codes "USER_" ++ (platform_part platform ++ (codes "ZSET_" ++ app_id));
    key = uid;
    value = ip ++ (codes ":" ++ decimal port);
  }
