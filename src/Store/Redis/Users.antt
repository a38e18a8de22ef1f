-- ===== src/Store/Redis/Users.antt =====
-- What the users of the Redis store get where the server of Redis is reached:
-- internal/adapters/secondary/store/redis.go.
