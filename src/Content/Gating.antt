-- ===== src/Content/Gating.antt =====
-- What a fan sees of content when the subscription has ended.
