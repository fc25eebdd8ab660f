-- ===== src/Sdk/Tests.antt =====
-- Each theorem about the SDK at a concrete input.
use anybot.Base.{none, some, [], codes}
use anybot.Core.Context.{Context, new_context}

abbrev seen : Context
seen = new_context none (
    some (record {
      id = [];
      protocol = [];
      self_id = [];
      kind = [];
      detail = [];
      sub_kind = [];
      user_id = [];
      group_id = codes "7";
      guild_id = [];
      channel_id = [];
      text = [];
      message = [];
      raw = [];
      payload = none;
    }))
